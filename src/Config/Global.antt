-- ===== src/Config/Global.antt =====
-- `GlobalSection` of virtwho/config.py: the options of the program as a whole.
use virt_who.Base.{
  String, true, false, ◌||◌, none, some, List, [], ◌∷◌, if◌then◌else◌, Result, ok, ◌>>=◌,
}
use virt_who.Base.Dict.{insert}
use virt_who.Config.Value.{Value, none_value, bool, int, str, list, pos, truthy}
use virt_who.Config.Section.{Section, get}
use virt_who.Config.Section.Define.{new_section}
use virt_who.Config.Section.Validate.{pre_validate, validate_base, post_validate}
use virt_who.Config.Methods.{
  Validator, section_type, boolean, non_empty, a_list, interval, Environment, default_interval,
}
use virt_who.Config.Methods.Call.{call}
use virt_who.Config.Virt.{OptionSpec, add_each}

-- The defaults that the machine gives: `generate_reporter_id()` and the places of the log.
pub record Machine : Type 0 where
  pub reporter_id : String
  pub log_file : String
  pub log_dir : String

abbrev with_default : String → Validator → Value → OptionSpec
with_default k m d = record {
  key = k;
  method = m;
  default = some d;
  destination = none;
  required = false;
  restricted = false;
}

global_options : Machine → List OptionSpec
global_options machine =
    with_default "debug" boolean (bool false)
    ∷ with_default "oneshot" boolean (bool false)
    ∷ with_default "status" boolean (bool false)
    ∷ with_default "json" boolean (bool false)
    ∷ record (with_default "print_" boolean (bool false)) { destination = some "print" }
    ∷ with_default "log_per_config" boolean (bool false)
    ∷ with_default "configs" a_list (list [])
    ∷ with_default "reporter_id" non_empty (str machine.reporter_id)
    ∷ with_default "interval" interval (int (pos default_interval))
    ∷ with_default "log_file" non_empty (str machine.log_file)
    ∷ with_default "log_dir" non_empty (str machine.log_dir)
    ∷ []

unfoldable pub new_global_section : Machine → String → Result (Section Validator)
unfolding add_each global_options
new_global_section machine name =
    add_each (global_options machine) (new_section [] section_type name)

-- What `_validate` of this class adds to that of `ConfigSection`: printing is done in one run.
unfoldable pub print_once : Section Validator → Section Validator
print_once s =
    if truthy (get s "print_" none_value) || truthy (get s "print" none_value)
    then record s { values = insert "oneshot" (bool true) s.values }
    else s

unfoldable pub validate_global : Environment → Section Validator → Result (Section Validator)
unfolding print_once
validate_global env s = do
  s' ← validate_base (call env) (pre_validate s)
  ok (post_validate (print_once s'))
