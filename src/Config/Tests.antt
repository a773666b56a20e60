-- ===== src/Config/Tests.antt =====
-- Runs of virtwho/config.py's parts on concrete options, and its theorems at them.
use virt_who.Base.{
  String, ◌≡◌, refl, true, false, not, ◌||◌, List, [], ◌∷◌, is_empty, ok, if◌then◌else◌, string_eq,
}
use virt_who.Base.Keys.{contains, add, discard, difference, union}
use virt_who.Base.Chars.{strip, is_space}
use virt_who.Base.Dict.{Dict, lookup, insert, erase, keys}
use virt_who.Config.Value.{Value, str, int, to_int, non_empty_string, value_eq, pos}
use virt_who.Config.Section.{
  Section, warning, debug, about, using_default, update_state, valid, invalid, needs_validation,
  has_value,
}
use virt_who.Config.Section.Validate.{
  validate, validate_base, pre_validate, say, validate_marked, validate_keys, validate_key, unmark,
  judge, finish, ignore_each, post_validate, apply_destinations, reset_to_defaults,
  check_required_keys, require_each, require, reset_each, reset, move_each, defaults_used, is_none,
}
use virt_who.Config.Section.Steps.{has_target}
use virt_who.Config.Methods.Typed.{reads_as, call-typed}
use virt_who.Config.Value.{bool, str_to_bool}
use virt_who.Base.Chars.{lower_is}
use virt_who.Config.Methods.{boolean, check_boolean, boolean_default}
use virt_who.Config.Section.Settled.{
  validate-settled, validate-invalid, validate-unknown, validate-required,
}
use virt_who.Config.Methods.{
  corrupted, Validator, Environment, password, non_empty, no_check, assign, check_non_empty,
  check_interval, interval,
}
use virt_who.Config.Methods.Call.{call}
use virt_who.Config.Methods.Tracking.{call-KeepsTracking}
use virt_who.Config.Methods.Corrupted.{Passed, corrupted_password}
use virt_who.Config.Virt.{adopt_virt_type, set_required, validate_virt}
use virt_who.Config.Virt.Required.{validate_virt-sat5}

abbrev env : Environment
env = record { is_uuid = λ s. false; old_requests = false; decrypt = λ s. password s }

-- A section with these options, all to be validated, of which the keys are required.
abbrev section_with : Dict Value → Dict Validator → List String → Section Validator
section_with values methods required = record {
  name = "acme";
  defaults = ("sm_type", str "sam") ∷ [];
  unvalidated_keys = keys values;
  invalid_keys = [];
  values = values;
  validation_messages = [];
  validation_methods = methods;
  destinations = [];
  required_keys = required;
  missing_required_keys = [];
  restricted = [];
  state = needs_validation;
}

abbrev given : Section Validator
given =
    section_with (("interval", str "30") ∷ ("owner", str "acme") ∷ ("colour", str "blue") ∷ [])
      (("interval", interval) ∷ ("owner", non_empty) ∷ []) ("owner" ∷ [])

abbrev validated : Section Validator
validated = record given {
  unvalidated_keys = [];
  values = ("interval", int (pos 3600)) ∷ ("owner", str "acme") ∷ ("sm_type", str "sam") ∷ [];
  validation_messages =
      record { level = debug; body = using_default "sm_type" (str "sam") }
      ∷ record {
        level = warning;
        body = about "Interval value can't be lower, default value will be used" "interval";
      }
      ∷ record { level = warning; body = about "Ignoring unknown configuration option" "colour" }
      ∷ [];
  state = valid;
}

given-validated : validate (call env) given ≡ ok validated
unfolding validate call validate_base pre_validate say validate_marked validate_keys validate_key
    unmark judge finish ignore_each update_state post_validate apply_destinations reset_to_defaults
    check_required_keys require_each require reset_each reset move_each defaults_used check_interval
    check_non_empty lookup insert erase keys add discard difference union contains is_none to_int
    strip is_space non_empty_string
given-validated = refl

validate-settled_example :
    (is_empty validated.unvalidated_keys ≡ true)
    × (validated.state ≡ (
        if not (is_empty validated.invalid_keys)
          || is_empty validated.values
          || not (is_empty validated.missing_required_keys)
        then invalid
        else valid))
validate-settled_example =
    validate-settled (call env) (call-KeepsTracking env) given validated given-validated

-- The same section, with a key that was found invalid before.
abbrev once_invalid : Section Validator
once_invalid = record given { invalid_keys = "interval" ∷ [] }

abbrev still_invalid : Section Validator
still_invalid = record validated { invalid_keys = "interval" ∷ []; state = invalid }

once_invalid-validated : validate (call env) once_invalid ≡ ok still_invalid
unfolding validate call validate_base pre_validate say validate_marked validate_keys validate_key
    unmark judge finish ignore_each update_state post_validate apply_destinations reset_to_defaults
    check_required_keys require_each require reset_each reset move_each defaults_used check_interval
    check_non_empty lookup insert erase keys add discard difference union contains is_none to_int
    strip is_space non_empty_string
once_invalid-validated = refl

validate-invalid_example : still_invalid.state ≡ invalid
unfolding contains
validate-invalid_example =
    validate-invalid (call env) (call-KeepsTracking env) once_invalid still_invalid
      once_invalid-validated "interval" refl

validate-unknown_example : has_value validated "colour" ≡ false
unfolding contains lookup has_target keys
validate-unknown_example =
    validate-unknown (call env) (call-KeepsTracking env) given validated given-validated "colour"
      refl refl refl

validate-required_example : has_value validated "owner" ≡ true
unfolding contains lookup
validate-required_example =
    validate-required (call env) (call-KeepsTracking env) given validated given-validated "owner"
      refl refl refl

-- A section for Satellite 5.
abbrev for_satellite : Section Validator
for_satellite =
    section_with
      (("sm_type", str "satellite")
        ∷ ("sat_server", str "sat.example.com")
        ∷ ("sat_username", str "admin")
        ∷ ("sat_password", str "secret")
        ∷ [])
      (("sm_type", non_empty)
        ∷ ("sat_server", no_check)
        ∷ ("sat_username", non_empty)
        ∷ ("sat_password", non_empty)
        ∷ [])
      ("owner" ∷ [])

abbrev satellite_validated : Section Validator
satellite_validated = record for_satellite {
  unvalidated_keys = [];
  required_keys = "sat_server" ∷ "sat_username" ∷ "sat_password" ∷ [];
  state = valid;
}

for_satellite-validated : validate_virt env for_satellite ≡ ok satellite_validated
unfolding validate_virt adopt_virt_type set_required value_eq validate call validate_base
    pre_validate say validate_marked validate_keys validate_key unmark judge finish ignore_each
    update_state post_validate apply_destinations reset_to_defaults check_required_keys require_each
    require reset_each reset move_each defaults_used check_interval check_non_empty lookup insert
    erase keys add discard difference union contains is_none to_int strip is_space non_empty_string
for_satellite-validated = refl

validate_virt-sat5_example : has_value satellite_validated "sat_username" ≡ true
unfolding lookup contains value_eq
validate_virt-sat5_example =
    validate_virt-sat5 env for_satellite satellite_validated (str "satellite") "sat_username" refl
      refl refl refl for_satellite-validated refl

given-interval_checked :
    call env interval "interval" given
    ≡ ok (
      assign "interval" (int (pos 3600)) given,
      record {
        level = warning;
        body = about "Interval value can't be lower, default value will be used" "interval";
      }
          ∷ [],
    )
unfolding call check_interval lookup insert to_int strip is_space
given-interval_checked = refl

-- A password that cannot be decrypted.
abbrev broken_env : Environment
broken_env = record env { decrypt = λ text. corrupted }

abbrev with_encrypted : Section Validator
with_encrypted = record (section_with (("encrypted_password", str "6b21") ∷ []) [] []) {
  destinations =
      ("encrypted_password", "password")
      ∷ ("rhsm_encrypted_password", "rhsm_password")
      ∷ ("rhsm_encrypted_proxy_password", "rhsm_proxy_password")
      ∷ ("sat_encrypted_password", "sat_password")
      ∷ [];
}

corrupted_password_example :
    Passed broken_env "encrypted_password" "password" (str "6b21") with_encrypted
unfolding lookup contains keys
corrupted_password_example =
    corrupted_password broken_env "encrypted_password" "password" "6b21" with_encrypted refl refl
      refl refl refl refl refl

-- A flag that is no Boolean.
abbrev flagged : Section Validator
flagged = record (section_with (("debug", str "maybe") ∷ []) [] []) {
  defaults = ("debug", bool false) ∷ [];
}

flagged-checked :
    call env boolean "debug" flagged
    ≡ ok (
      assign "debug" (bool false) flagged,
      record { level = warning; body = about "must be a valid boolean, using default" "debug" }
          ∷ [],
    )
unfolding call check_boolean boolean_default str_to_bool lookup insert strip is_space lower_is
flagged-checked = refl

call-typed_example :
    reads_as boolean (lookup "debug" (assign "debug" (bool false) flagged).values) ≡ true
unfolding lookup
call-typed_example =
    call-typed env boolean "debug" (str "maybe") flagged (assign "debug" (bool false) flagged)
      (record { level = warning; body = about "must be a valid boolean, using default" "debug" }
        ∷ [])
      refl refl refl flagged-checked
