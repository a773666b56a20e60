-- ===== src/Config/Section.antt =====
-- `ConfigSection` of virtwho/config.py: a section's options, with what is known of their validity.
pub mod Validate
pub mod Define
pub mod Rounds
pub mod Steps
pub mod Items
pub mod Passes
pub mod Returns
pub mod Settled
use virt_who.Base.{
  ℕ, String, Bool, true, false, not, ◌&&◌, ◌||◌, Option, none, some, List, [], ◌∷◌, ◌++◌, any, all,
  is_empty, if◌then◌else◌, Result, ok, raised, ◌>>=◌, key_error, attribute_error, ◌==◌, string_eq,
}
use virt_who.Base.Keys.{Keys, contains, add, discard, difference, union}
use virt_who.Base.Dict.{Dict, lookup, insert, erase, keys, has, is_some, get_or}
use virt_who.Config.Value.{Value, value_eq, none_value}

pub data ValidationState : Type 0 where
  valid invalid unknown needs_validation : ValidationState

pub data Level : Type 0 where
  error warning debug : Level

-- A validation message: its level, and what its text is made from.
pub data Body : Type 0 where
  text : String → Body
  about : String → String → Body
  using_default : String → Value → Body

pub record Message : Type 0 where
  pub level : Level
  pub body : Body

-- `M` names the validation methods of a class of sections.
pub record Section (M : Type 0) : Type 0 where
  pub name : String
  pub defaults : Dict Value
  pub unvalidated_keys : Keys
  pub invalid_keys : Keys
  pub values : Dict Value
  pub validation_messages : List Message
  pub validation_methods : Dict M
  pub destinations : Dict String
  pub required_keys : Keys
  pub missing_required_keys : Keys
  pub restricted : Keys
  pub state : ValidationState

abbrev pub is_error : Message → Bool
is_error m = elim m.level [ error ↦ true | warning ↦ false | debug ↦ false ]

module _ {M : Type 0} where
  unfoldable pub state_of : Section M → ValidationState
  state_of s =
      if not (is_empty s.unvalidated_keys)
      then needs_validation
      else if not (is_empty s.invalid_keys)
          || is_empty s.values
          || not (is_empty s.missing_required_keys)
      then invalid
      else valid

  -- `_update_state`
  unfoldable pub update_state : Section M → Section M
  unfolding state_of
  update_state s = record s { state = state_of s }

  -- `key in self`, `self.has_default(key)`
  abbrev pub has_value : Section M → String → Bool
  has_value s k = has k s.values

  abbrev pub has_default : Section M → String → Bool
  has_default s k = has k s.defaults

  -- `self[key]`
  unfoldable pub get_item : Section M → String → Result Value
  get_item s k = elim (lookup k s.values) [
    | some v ↦ ok v
    | none ↦ elim (lookup k s.defaults) [ some v ↦ ok v | none ↦ raised key_error ]
  ]

  mark : String → Section M → Section M
  mark k s = record s { unvalidated_keys = add k s.unvalidated_keys }

  -- `key not in self or self[key] != value`
  changes : String → Value → Section M → Bool
  changes k v s = elim (lookup k s.values) [ none ↦ true | some w ↦ not (value_eq w v) ]

  -- `self[key] = value`
  unfoldable pub set_item : String → Value → Section M → Section M
  unfolding update_state mark changes
  set_item k v s =
      if changes k v s
      then update_state (record (mark k s) { values = insert k v s.values })
      else if not (contains s.unvalidated_keys k)
      then update_state (mark k s)
      else s

  -- `del self[key]`
  unfoldable pub del_item : String → Section M → Result (Section M)
  unfolding update_state
  del_item k s =
      if has_value s k
      then (if has_default s k
          then ok s
          else ok (
              update_state (record s {
                values = erase k s.values;
                unvalidated_keys = discard k s.unvalidated_keys;
                invalid_keys = discard k s.invalid_keys;
              })))
      else raised key_error

  -- `self.is_default(key)`
  unfoldable pub is_default : Section M → String → Bool
  is_default s k = elim (lookup k s.defaults) [
    | none ↦ false
    | some d ↦ elim (lookup k s.values) [ none ↦ true | some v ↦ value_eq v d ]
  ]

  unfoldable pub is_section_default : Section M → Bool
  unfolding is_default
  is_section_default s = all (λ k. has_default s k && is_default s k) (keys s.values)

  -- `self.get(key, default)`
  unfoldable pub get : Section M → String → Value → Value
  unfolding get_item
  get s k d = elim (get_item s k) [ ok v ↦ v | raised e ↦ d ]

  -- `self.update(...)` by the items of a dict.
  unfoldable pub update_items :
      (String → Value → Section M → Section M) → Dict Value → Section M → Section M
  update_items assign [] s = s
  update_items assign ((k, v) ∷ d) s = update_items assign d (assign k v s)

  unfoldable pub is_valid : Section M → Bool
  is_valid s = elim s.state [
    | valid ↦ true
    | invalid ↦ false
    | unknown ↦ false
    | needs_validation ↦ false
  ]
