-- ===== src/Config/Section/Steps.antt =====
-- What the loops after validation do: dropped options, required keys, defaults, destinations.
use virt_who.Base.{
  String, ◌≡◌, refl, ◌∙◌, Bool, true, false, not, ◌&&◌, ◌||◌, none, List, [], ◌∷◌, if◌then◌else◌,
  arith, ◌==◌, string_eq, same_text, Option-cases, inl, inr,
}
use virt_who.Base.Keys.{Keys, contains, contains-add}
use virt_who.Base.Dict.{Dict, lookup, insert, erase, has, lookup-insert, lookup-erase}
use virt_who.Config.Section.{Section, Message, has_value, has_default}
use virt_who.Config.Section.Validate.{
  say, require, require_each, reset, reset_each, move, move_each, ignore_each,
}

-- A key is the destination of another.
unfoldable pub has_target : Dict String → String → Bool
has_target [] j = false
has_target ((k, destination) ∷ d) j = destination == j || has_target d j

module _ {M : Type 0} where
  -- The loop over unknown keys takes them out of the values and changes nothing else.
  pub record Dropped (ks : Keys) (s t : Section M) : Type 0 where
    pub values :
        (j : String) → lookup j t.values ≡ (if contains ks j then none else lookup j s.values)
    pub unvalidated : t.unvalidated_keys ≡ s.unvalidated_keys
    pub invalid : t.invalid_keys ≡ s.invalid_keys
    pub defaults : t.defaults ≡ s.defaults
    pub destinations : t.destinations ≡ s.destinations
    pub required : t.required_keys ≡ s.required_keys

  pub ignore_each-Dropped :
      (ks : Keys) (s : Section M) (messages : List Message)
      → Dropped ks s (ignore_each ks s messages).0
  unfolding ignore_each contains
  ignore_each-Dropped [] s messages = record {
    values = λ j. refl;
    unvalidated = refl;
    invalid = refl;
    defaults = refl;
    destinations = refl;
    required = refl;
  }
  ignore_each-Dropped (k ∷ ks) s messages =
      let rest = ignore_each-Dropped ks (record s { values = erase k s.values }) _ in
      record {
        values = λ j. rest.values j ∙ ground (arith, lookup-erase k j s.values);
        unvalidated = rest.unvalidated;
        invalid = rest.invalid;
        defaults = rest.defaults;
        destinations = rest.destinations;
        required = rest.required;
      }

  -- What the loops of `_post_validate` leave alone.
  pub record SameKeys (s t : Section M) : Type 0 where
    pub unvalidated : t.unvalidated_keys ≡ s.unvalidated_keys
    pub invalid : t.invalid_keys ≡ s.invalid_keys
    pub defaults : t.defaults ≡ s.defaults
    pub destinations : t.destinations ≡ s.destinations
    pub required : t.required_keys ≡ s.required_keys

  pub SameKeys-trans : {s t u : Section M} → SameKeys s t → SameKeys t u → SameKeys s u
  SameKeys-trans a b = record {
    unvalidated = b.unvalidated ∙ a.unvalidated;
    invalid = b.invalid ∙ a.invalid;
    defaults = b.defaults ∙ a.defaults;
    destinations = b.destinations ∙ a.destinations;
    required = b.required ∙ a.required;
  }

  pub SameKeys-refl : (s : Section M) → SameKeys s s
  SameKeys-refl s = record {
    unvalidated = refl;
    invalid = refl;
    defaults = refl;
    destinations = refl;
    required = refl;
  }

  -- A round of `check_required_keys`.
  require-SameKeys : (k : String) (s : Section M) → SameKeys s (require k s)
  unfolding require say
  require-SameKeys k s = ground arith

  require_lem :
      (k : String) (s : Section M) (j : String)
      → ((require k s).values ≡ s.values)
        × (contains (require k s).missing_required_keys j ≡ (
            contains s.missing_required_keys j
            || k == j && not (has_value s k) && not (has_default s k)))
  unfolding require say
  require_lem k s j = ground (arith, contains-add k s.missing_required_keys j)

  pub require_each_lem :
      (ks : Keys) (s : Section M)
      → SameKeys s (require_each ks s)
        × ((require_each ks s).values ≡ s.values)
        × ((j : String)
            → contains (require_each ks s).missing_required_keys j ≡ (
                contains s.missing_required_keys j
                || contains ks j && not (has_value s j) && not (has_default s j)))
  unfolding require_each contains
  require_each_lem [] s = (SameKeys-refl s, refl, λ j. ground arith)
  require_each_lem (k ∷ ks) s =
      let (same, values, missing) = require_each_lem ks (require k s) in
      let first = require-SameKeys k s in
      (
        SameKeys-trans first same,
        values ∙ (require_lem k s k).0,
        λ j.
            missing j
            ∙ rw ((require_lem k s j).0, first.defaults, (require_lem k s j).1)
                (ground (arith, same_text k j)),
      )

  -- A round of `reset_to_defaults`.
  reset-SameKeys : (k : String) (s : Section M) → SameKeys s (reset k s)
  unfolding reset say
  reset-SameKeys k s = ground arith

  reset_lem :
      (k : String) (s : Section M) (j : String)
      → ((reset k s).missing_required_keys ≡ s.missing_required_keys)
        × (lookup j (reset k s).values ≡ (
            if k == j && not (has_value s k) && has_default s k
            then lookup k s.defaults
            else lookup j s.values))
  unfolding reset say
  reset_lem k s j = elim (Option-cases (lookup k s.defaults)) [
    | inl e ↦ ground arith
    | inr (d, e) ↦ ground (arith, lookup-insert k j d s.values)
  ]

  -- A key without a value that is reset has its default afterwards, if there is one.
  pub reset_each_lem :
      (ks : Keys) (s : Section M)
      → SameKeys s (reset_each ks s)
        × ((reset_each ks s).missing_required_keys ≡ s.missing_required_keys)
        × ((j : String)
            → lookup j (reset_each ks s).values ≡ (
                if contains ks j && not (has_value s j) && has_default s j
                then lookup j s.defaults
                else lookup j s.values))
  unfolding reset_each contains
  reset_each_lem [] s = (SameKeys-refl s, refl, λ j. refl)
  reset_each_lem (k ∷ ks) s =
      let (same, missing, values) = reset_each_lem ks (reset k s) in
      let first = reset-SameKeys k s in
      (
        SameKeys-trans first same,
        missing ∙ (reset_lem k s k).0,
        λ j. values j ∙ rw (first.defaults, (reset_lem k s j).1) (ground (arith, same_text k j)),
      )

  -- A round of `apply_destinations`.
  move-SameKeys :
      (k destination : String) (s : Section M)
      → SameKeys s (move k destination s)
        × ((move k destination s).missing_required_keys ≡ s.missing_required_keys)
  unfolding move
  move-SameKeys k destination s = ground arith

  move_lem :
      (k destination : String) (s : Section M) (j : String)
      → ((k == j) ≡ false → has_value s j ≡ true → has_value (move k destination s) j ≡ true)
        × ((destination == j) ≡ false
            → has_value s j ≡ false
            → has_value (move k destination s) j ≡ false)
  unfolding move
  move_lem k destination s j = elim (Option-cases (lookup k s.values)) [
    | inl e ↦ ground arith
    | inr (v, e) ↦ ground (
      arith,
      lookup-insert destination j v s.values,
      lookup-erase k j (insert destination v s.values),
    )
  ]

  -- No value is lost but those that are moved, and none appears but at a destination.
  pub move_each_lem :
      (d : Dict String) (s : Section M)
      → SameKeys s (move_each d s)
        × ((move_each d s).missing_required_keys ≡ s.missing_required_keys)
        × ((j : String)
            → has j d ≡ false
            → has_value s j ≡ true
            → has_value (move_each d s) j ≡ true)
        × ((j : String)
            → has_target d j ≡ false
            → has_value s j ≡ false
            → has_value (move_each d s) j ≡ false)
  unfolding move_each lookup has_target
  move_each_lem [] s = (SameKeys-refl s, refl, λ j h v. v, λ j h v. v)
  move_each_lem ((k, destination) ∷ d) s =
      let (same, missing, keeps, adds) = move_each_lem d (move k destination s) in
      let (first, first_missing) = move-SameKeys k destination s in
      (
        SameKeys-trans first same,
        missing ∙ first_missing,
        λ j h v. ground (arith, keeps j, (move_lem k destination s j).0),
        λ j h v. ground (arith, adds j, (move_lem k destination s j).1),
      )
