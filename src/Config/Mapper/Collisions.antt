-- ===== src/Config/Mapper/Collisions.antt =====
-- Destinations that differ in the name of an option only are taken for one.
use virt_who.Base.{
  ℕ, String, ◌≡◌, ◌∙◌, refl, Bool, true, false, not, none, some, List, [], ◌∷◌, ◌++◌, all, ok,
  nat_eq_iff, arith, string_eq, Option-cases, Result-cases, inl, inr,
}
use virt_who.Base.Keys.{Keys, contains}
use virt_who.Base.Dict.{Dict, lookup, NodupKeys}
use virt_who.Config.Value.{Value}
use virt_who.Config.Mapper.{
  DestinationClass, satellite5, satellite6, Info, is_unset, collect, new_info,
  parse_dests_from_dict, same_info, sources_of, map_destinations_to_sources,
}
use virt_who.Config.Mapper.Sources.{names_dest, names_in, map_destinations_to_sources_lem}

-- The destination of an owner and a value of one option.
abbrev pub info_of : String → Value → Value → Info
info_of arg owner v = record { class = satellite6; options = ("owner", owner) ∷ (arg, v) ∷ [] }

abbrev pub both : List DestinationClass
both = satellite5 ∷ satellite6 ∷ []

abbrev pub is_missing : Dict Value → String → Bool
is_missing options arg = elim (lookup arg options) [ none ↦ true | some v ↦ is_unset v ]

-- Options that have an owner and one of the other options of a Satellite 6 destination, of those
-- before and behind it none. Options that belong to no destination may have any value.
pub record Names (before : Keys) (arg : String) (behind : Keys) (owner v : Value)
    (options : Dict Value) : Type 0 where
  pub has_owner : lookup "owner" options ≡ some owner
  pub owner_set : is_unset owner ≡ false
  pub has_option : lookup arg options ≡ some v
  pub option_set : is_unset v ≡ false
  pub none_before : all (is_missing options) before ≡ true
  pub none_behind : all (is_missing options) behind ≡ true

-- The optional options of `Satellite6DestinationInfo` behind the prefix.
abbrev pub behind_prefix : Keys
behind_prefix =
    "rhsm_username" ∷ "rhsm_password" ∷ "rhsm_proxy_hostname" ∷ "rhsm_proxy_port"
    ∷ "rhsm_proxy_user" ∷ "rhsm_proxy_password" ∷ "rhsm_no_proxy" ∷ "rhsm_insecure" ∷ []

abbrev pub NamesHost : Value → Value → Dict Value → Type 0
NamesHost = Names [] "rhsm_hostname" ("rhsm_port" ∷ "rhsm_prefix" ∷ behind_prefix)

abbrev pub NamesPrefix : Value → Value → Dict Value → Type 0
NamesPrefix = Names ("rhsm_hostname" ∷ "rhsm_port" ∷ []) "rhsm_prefix" behind_prefix

abbrev pub free : Keys → String → Bool
free required arg = not (contains required arg)

collect-skip :
    (pre rest required : Keys) (options : Dict Value)
    → all (is_missing options) pre ≡ true
    → all (free required) pre ≡ true
    → collect (pre ++ rest) required options ≡ collect rest required options
unfolding collect
collect-skip [] rest required options missing unneeded = refl
collect-skip (arg ∷ pre) rest required options missing unneeded =
    elim (Option-cases (lookup arg options)) [
      | inl absent ↦
          ground (arith, absent, missing, unneeded, collect-skip pre rest required options)
      | inr (v, there) ↦
          ground (arith, there, missing, unneeded, collect-skip pre rest required options)
    ]

collect-take :
    (arg : String) (rest required : Keys) (options os : Dict Value) (v : Value)
    → lookup arg options ≡ some v
    → is_unset v ≡ false
    → collect rest required options ≡ ok os
    → collect (arg ∷ rest) required options ≡ ok ((arg, v) ∷ os)
unfolding collect
collect-take arg rest required options os v there set others = rw (collect, there, set, others) refl

-- The options that a destination is made with.
collect-named :
    (before : Keys) (arg : String) (behind : Keys) (owner v : Value) (options : Dict Value)
    → Names before arg behind owner v options
    → all (free ("owner" ∷ [])) before ≡ true
    → all (free ("owner" ∷ [])) behind ≡ true
    → collect ("owner" ∷ before ++ (arg ∷ behind ++ [])) ("owner" ∷ []) options
      ≡ ok (("owner", owner) ∷ (arg, v) ∷ [])
unfolding collect
collect-named before arg behind owner v options names h k =
    collect-take "owner" (before ++ (arg ∷ behind ++ [])) ("owner" ∷ []) options _ owner
      names.has_owner names.owner_set
      (collect-skip before (arg ∷ behind ++ []) ("owner" ∷ []) options names.none_before h
        ∙ collect-take arg (behind ++ []) ("owner" ∷ []) options [] v names.has_option
            names.option_set (collect-skip behind [] ("owner" ∷ []) options names.none_behind k))

named_later :
    (hash : List Value → ℕ) (class : DestinationClass) (classes : List DestinationClass)
    (options : Dict Value) (j : Info)
    → names_dest hash j (parse_dests_from_dict classes options) ≡ true
    → names_dest hash j (parse_dests_from_dict (class ∷ classes) options) ≡ true
unfolding parse_dests_from_dict
named_later hash class classes options j h = elim (Result-cases (new_info class options)) [
  | inl (x, failed) ↦ rw (parse_dests_from_dict, failed) h
  | inr (i, made) ↦ rw (parse_dests_from_dict, made) (ground (arith, h))
]

named_first :
    (hash : List Value → ℕ) (class : DestinationClass) (classes : List DestinationClass)
    (options : Dict Value) (i j : Info)
    → new_info class options ≡ ok i
    → same_info hash i j ≡ true
    → names_dest hash j (parse_dests_from_dict (class ∷ classes) options) ≡ true
unfolding parse_dests_from_dict
named_first hash class classes options i j made same =
    rw (parse_dests_from_dict, made) (ground (arith, same))

-- A destination that is made is among those that the options name.
parsed :
    (hash : List Value → ℕ) (options : Dict Value) (i j : Info)
    → new_info satellite6 options ≡ ok i
    → same_info hash i j ≡ true
    → names_dest hash j (parse_dests_from_dict both options) ≡ true
parsed hash options i j made same =
    named_later hash satellite5 (satellite6 ∷ []) options j
      (named_first hash satellite6 [] options i j made same)

listed :
    (hash : List Value → ℕ) (configs : Dict (Dict Value)) (n : String) (options : Dict Value)
    (j : Info)
    → lookup n configs ≡ some options
    → names_dest hash j (parse_dests_from_dict both options) ≡ true
    → names_in hash both j configs n ≡ true
unfolding lookup
listed hash [] n options j there named = cc
listed hash ((k, c) ∷ configs) n options j there named =
    ground (arith, there, named, listed hash configs n options j)

same_values :
    (hash : List Value → ℕ) (a b : String) (owner v : Value)
    → same_info hash (info_of a owner v) (info_of b owner v) ≡ true
unfolding same_info
same_values hash a b owner v = rw ((nat_eq_iff _ (hash (owner ∷ v ∷ []))).1 refl)

-- Whatever the hash and whatever the other sources, a source whose options name an owner and a host
-- name, and no other option of a Satellite 6 destination, is listed under the destination that another
-- source names by the same owner and by a prefix of the same text alone: the two are one key, and the
-- two sources report to one destination.
pub collision :
    (hash : List Value → ℕ) (configs : Dict (Dict Value)) (n n' : String)
    (options options' : Dict Value) (owner v : Value)
    → NodupKeys configs
    → lookup n configs ≡ some options
    → lookup n' configs ≡ some options'
    → NamesHost owner v options
    → NamesPrefix owner v options'
    → let m = map_destinations_to_sources hash both configs in
      (contains (sources_of hash (info_of "rhsm_prefix" owner v) m.dest_to_source_map) n ≡ true)
      × (contains (sources_of hash (info_of "rhsm_prefix" owner v) m.dest_to_source_map) n' ≡ true)
unfolding new_info contains
collision hash configs n n' options options' owner v distinct there there' host prefix =
    let j = info_of "rhsm_prefix" owner v in
    let sources =
      λ (k : String). (map_destinations_to_sources_lem hash both configs j k distinct).0 in
    (
      sources n
          ∙ listed hash configs n options j there (
              parsed hash options (info_of "rhsm_hostname" owner v) j
                (rw
                  (collect-named [] "rhsm_hostname" ("rhsm_port" ∷ "rhsm_prefix" ∷ behind_prefix)
                    owner v options host refl refl)
                  refl)
                (same_values hash "rhsm_hostname" "rhsm_prefix" owner v)),
      sources n'
          ∙ listed hash configs n' options' j there' (
              parsed hash options' j j
                (rw
                  (collect-named ("rhsm_hostname" ∷ "rhsm_port" ∷ []) "rhsm_prefix" behind_prefix
                    owner v options' prefix refl refl)
                  refl)
                (same_values hash "rhsm_prefix" "rhsm_prefix" owner v)),
    )
