-- ===== src/Config/Section/Validate.antt =====
-- `validate` of `ConfigSection`, with its parts `_pre_validate`, `_validate` and `_post_validate`.
use virt_who.Base.{
  String, Bool, true, false, not, ◌&&◌, ◌||◌, none, some, List, [], ◌∷◌, ◌++◌, any, is_empty,
  if◌then◌else◌, Result, ok, raised, ◌>>=◌, key_error,
}
use virt_who.Base.Keys.{Keys, contains, add, discard, difference, union}
use virt_who.Base.Dict.{Dict, lookup, insert, erase, keys}
use virt_who.Config.Value.{Value, none_value}
use virt_who.Config.Section.{
  Section, Message, error, warning, debug, text, about, using_default, is_error, update_state,
  has_value, has_default,
}

unfoldable pub is_none : Value → Bool
is_none none_value = true
is_none _ = false

-- What a validation method does: it may raise, change the section, and return messages.
abbrev pub Method : Type 0 → Type 0
Method M = String → Section M → Result (Section M × List Message)

module _ {M : Type 0} where
  unfoldable pub say : List Message → Section M → Section M
  say ms s = record s { validation_messages = s.validation_messages ++ ms }

  unfoldable pub defaults_used : Dict Value → Section M → List Message
  defaults_used [] s = []
  defaults_used ((k, d) ∷ rest) s =
      let more = defaults_used rest s in
      if not (contains s.unvalidated_keys k) && not (contains s.restricted k) && not (is_none d)
      then record { level = debug; body = using_default k d } ∷ more
      else more

  unfoldable pub pre_validate : Section M → Section M
  pre_validate s =
      if is_empty s.unvalidated_keys
      then (if is_empty s.values
          then say (record { level = warning; body = text "No values provided" } ∷ []) s
          else s)
      else say (defaults_used s.defaults s) s

  unfoldable pub require : String → Section M → Section M
  require k s =
      if not (has_value s k) && not (has_default s k)
      then say (record { level = error; body = about "Required option not set" k } ∷ [])
          (record s { missing_required_keys = add k s.missing_required_keys })
      else s

  unfoldable pub require_each : Keys → Section M → Section M
  require_each [] s = s
  require_each (k ∷ ks) s = require_each ks (require k s)

  unfoldable pub check_required_keys : Section M → Section M
  check_required_keys s = require_each s.required_keys s

  unfoldable pub reset : String → Section M → Section M
  reset k s = elim (lookup k s.defaults) [
    | none ↦ s
    | some d ↦
        if has_value s k
        then s
        else if contains s.required_keys k && not (contains s.restricted k)
        then say (record { level = warning; body = using_default k d } ∷ [])
            (record s { values = insert k d s.values })
        else record s { values = insert k d s.values }
  ]

  unfoldable pub reset_each : Keys → Section M → Section M
  reset_each [] s = s
  reset_each (k ∷ ks) s = reset_each ks (reset k s)

  unfoldable pub reset_to_defaults : Section M → Section M
  reset_to_defaults s = reset_each (union s.invalid_keys (keys s.defaults)) s

  -- One key of `self._destinations` with its destination.
  unfoldable pub move : String → String → Section M → Section M
  move k destination s = elim (lookup k s.values) [
    | none ↦ s
    | some v ↦
        if has_value s destination || contains s.invalid_keys k
        then s
        else record s { values = erase k (insert destination v s.values) }
  ]

  unfoldable pub move_each : Dict String → Section M → Section M
  move_each [] s = s
  move_each ((k, destination) ∷ rest) s = move_each rest (move k destination s)

  unfoldable pub apply_destinations : Section M → Section M
  apply_destinations s = move_each s.destinations s

  unfoldable pub post_validate : Section M → Section M
  post_validate s = update_state (apply_destinations (reset_to_defaults (check_required_keys s)))

  -- A key is invalid if one of the messages of its method is an error.
  unfoldable pub judge : String → List Message → Section M → Section M
  judge k messages s =
      if any is_error messages then record s { invalid_keys = add k s.invalid_keys } else s

  -- `self._unvalidated_keys.remove(key)`
  unfoldable pub unmark : String → Section M → Result (Section M)
  unmark k s =
      if contains s.unvalidated_keys k
      then ok (record s { unvalidated_keys = discard k s.unvalidated_keys })
      else raised key_error

  module _ (call : M → Method M) where
    -- The round of `_validate` for a key that is to be validated.
    unfoldable pub validate_key : String → M → Section M → Result (Section M × List Message)
    validate_key k method s = do
      (s', messages) ← call method k s
      s'' ← unmark k (judge k messages s')
      ok (s'', messages)

    -- The loop over `validation_methods`.
    unfoldable pub validate_keys :
        Dict M → Section M → List Message → Result (Section M × List Message)
    validate_keys [] s messages = ok (s, messages)
    validate_keys ((k, method) ∷ rest) s messages = elim (contains s.unvalidated_keys k) [
      | true ↦ do (s', more) ← validate_key k method s; validate_keys rest s' (messages ++ more)
      | false ↦ validate_keys rest s messages
    ]

  -- The loop over the unknown keys.
  unfoldable pub ignore_each : Keys → Section M → List Message → Section M × List Message
  ignore_each [] s messages = (s, messages)
  ignore_each (k ∷ ks) s messages =
      ignore_each ks (record s { values = erase k s.values })
        (messages
          ++ (record { level = warning; body = about "Ignoring unknown configuration option" k }
              ∷ []))

  -- The end of `_validate`.
  unfoldable pub finish : Keys → Section M × List Message → Section M
  finish unknown_keys (s, messages) =
      let (s', all_messages) = ignore_each unknown_keys s messages in
      say all_messages (update_state s')

  module _ (call : M → Method M) where
    -- `_validate` where there are keys to validate: the unknown ones are set aside first.
    unfoldable pub validate_marked : Section M → Result (Section M)
    validate_marked s = do
      let unknown_keys = difference s.unvalidated_keys (keys s.validation_methods)
      r ←
          validate_keys call s.validation_methods
            (record s { unvalidated_keys = difference s.unvalidated_keys unknown_keys }) []
      ok (finish unknown_keys r)

    -- `_validate`
    unfoldable pub validate_base : Section M → Result (Section M)
    validate_base s = if is_empty s.unvalidated_keys then ok s else validate_marked s

    unfoldable pub validate : Section M → Result (Section M)
    validate s = do s' ← validate_base (pre_validate s); ok (post_validate s')
