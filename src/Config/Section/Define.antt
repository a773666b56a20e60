-- ===== src/Config/Section/Define.antt =====
-- How a section's options are declared: `__init__`, `add_key` and `remove_key` of `ConfigSection`.
use virt_who.Base.{
  String, Bool, Option, none, some, [], if◌then◌else◌, Result, ok, raised, attribute_error,
}
use virt_who.Base.Keys.{add, discard}
use virt_who.Base.Dict.{Dict, insert, erase, update}
use virt_who.Config.Value.{Value}
use virt_who.Config.Section.{Section, unknown, update_state}

module _ {M : Type 0} where
  -- `add_key(key, validation_method, default, destination, required, restricted)`
  unfoldable pub add_key :
      String
      → Option M
      → Option Value
      → Option String
      → Bool
      → Bool
      → Section M
      → Result (Section M)
  add_key k none default destination required restricted s = raised attribute_error
  add_key k (some method) default destination required restricted s = ok (record s {
    defaults = elim default [ none ↦ s.defaults | some v ↦ insert k v s.defaults ];
    validation_methods = insert k method s.validation_methods;
    destinations = elim destination [ none ↦ s.destinations | some d ↦ insert k d s.destinations ];
    required_keys = if required then add k s.required_keys else discard k s.required_keys;
    restricted = if restricted then add k s.restricted else discard k s.restricted;
  })

  -- `remove_key(key)`: the state is not computed again, and an invalid key stays marked.
  unfoldable pub remove_key : String → Section M → Section M
  remove_key k s = record s {
    validation_methods = erase k s.validation_methods;
    destinations = erase k s.destinations;
    restricted = discard k s.restricted;
    required_keys = discard k s.required_keys;
    defaults = erase k s.defaults;
    values = erase k s.values;
    unvalidated_keys = discard k s.unvalidated_keys;
  }

  -- `__init__` over the class's `DEFAULTS`, with the method for the key `type`.
  unfoldable pub new_section : Dict Value → M → String → Section M
  unfolding update_state
  new_section class_defaults validate_type name =
      record (update_state (record {
        name = name;
        defaults = update [] class_defaults;
        unvalidated_keys = [];
        invalid_keys = [];
        values = update [] class_defaults;
        validation_messages = [];
        validation_methods = [];
        destinations = [];
        required_keys = [];
        missing_required_keys = [];
        restricted = add "sm_type" (add "virt_type" []);
        state = unknown;
      })) { validation_methods = insert "type" validate_type [] }
