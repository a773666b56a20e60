-- ===== src/Report/Filter.antt =====
-- `HostGuestAssociationReport`: which hypervisors of a report are reported.
use virt_who.Base.{
  String, ◌≡◌, refl, Bool, true, false, not, ◌&&◌, ◌||◌, Option, none, some, List, [], ◌∷◌, map,
  any, select, if◌then◌else◌, arith,
}
use virt_who.Base.Sorted.{sort_by}
use virt_who.Report.{
  Hypervisor, HypervisorDict, hypervisor_dict, Association, FilterType, no_type, wildcards, regex,
  other_type,
}

-- What the filters use of the modules `fnmatch` and `re`: whether a host matches a pattern without
-- regard to case, and whether it matches a regular expression as a whole, which is `none` if the
-- expression is refused.
pub record Matching : Type 0 where
  pub fnmatch : String → String → Bool
  pub re_match : String → String → Option Bool

module _ (matching : Matching) where
  open matching use {fnmatch, re_match}

  matches_regex : String → String → Bool
  matches_regex host pattern = elim (re_match host pattern) [ none ↦ false | some b ↦ b ]

  -- One round of `_filter`.
  unfoldable pub matches : FilterType → String → String → Bool
  unfolding matches_regex
  matches no_type host pattern = fnmatch host pattern || matches_regex host pattern
  matches wildcards host pattern = fnmatch host pattern
  matches regex host pattern = matches_regex host pattern
  matches other_type host pattern = false

  -- `_filter(host, filterlist)`
  unfoldable pub filter_match : FilterType → String → List String → Bool
  filter_match t host [] = false
  filter_match t host (pattern ∷ rest) =
      let more = filter_match t host rest in if matches t host pattern then true else more

  -- One round of the loop of `association`: whether the host is appended, by the second test alone
  -- and by both.
  included : FilterType → String → Option (List String) → Bool
  included t host none = true
  included t host (some patterns) = filter_match t host patterns

  passes : FilterType → String → Option (List String) → Option (List String) → Bool
  unfolding included
  passes t host none filter_hosts = included t host filter_hosts
  passes t host (some patterns) filter_hosts =
      if filter_match t host patterns then false else included t host filter_hosts

  abbrev keeps : Association → Hypervisor → Bool
  keeps r h = passes r.filter_type h.hypervisor_id r.exclude_hosts r.filter_hosts

  unfoldable pub associate : Association → List Hypervisor → List Hypervisor
  unfolding passes
  associate r [] = []
  associate r (h ∷ hs) = let rest = associate r hs in if keeps r h then h ∷ rest else rest

  -- `association`
  unfoldable pub association : Association → List Hypervisor
  unfolding associate
  association r = associate r r.hypervisors

  -- `serializedAssociation`
  unfoldable pub serialized_association : Association → List HypervisorDict
  unfolding association
  serialized_association r =
      sort_by (λ (h : HypervisorDict). h.hypervisor_id) (map hypervisor_dict (association r))

  -- Whether a pattern of a list matches a host; `unset` says what a list that is not set means.
  abbrev pub listed : FilterType → Option (List String) → Bool → String → Bool
  listed t none unset host = unset
  listed t (some patterns) unset host = any (matches t host) patterns

  filter_match-any :
      (t : FilterType) (host : String) (patterns : List String)
      → filter_match t host patterns ≡ any (matches t host) patterns
  unfolding filter_match
  filter_match-any t host [] = refl
  filter_match-any t host (p ∷ ps) = ground (arith, filter_match-any t host ps)

  included_lem :
      (t : FilterType) (host : String) (filter_hosts : Option (List String))
      → included t host filter_hosts ≡ listed t filter_hosts true host
  unfolding included
  included_lem t host none = refl
  included_lem t host (some ps) = filter_match-any t host ps

  passes_lem :
      (t : FilterType) (host : String) (exclude_hosts filter_hosts : Option (List String))
      → passes t host exclude_hosts filter_hosts
        ≡ (not (listed t exclude_hosts false host) && listed t filter_hosts true host)
  unfolding passes
  passes_lem t host none filter_hosts = included_lem t host filter_hosts
  passes_lem t host (some ps) filter_hosts =
      ground (arith, filter_match-any t host ps, included_lem t host filter_hosts)

  -- The hypervisors that are reported are those that no pattern of `exclude_hosts` matches and, if
  -- `filter_hosts` is set, some pattern of it does, in the order in which they were gathered. So a
  -- hypervisor that both lists match is not reported.
  pub association-select :
      (r : Association)
      → association r
        ≡ select
            (λ h.
              not (listed r.filter_type r.exclude_hosts false h.hypervisor_id)
              && listed r.filter_type r.filter_hosts true h.hypervisor_id)
            r.hypervisors
  unfolding association
  association-select r = go r.hypervisors
    where
      go :
          (hs : List Hypervisor)
          → associate r hs
            ≡ select
                (λ h.
                  not (listed r.filter_type r.exclude_hosts false h.hypervisor_id)
                  && listed r.filter_type r.filter_hosts true h.hypervisor_id)
                hs
      go [] = refl
      go (h ∷ hs) =
          ground
            (arith, go hs, passes_lem r.filter_type h.hypervisor_id r.exclude_hosts r.filter_hosts)
