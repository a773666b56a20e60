-- ===== src/Config/Methods/Tracking.antt =====
-- Every validation method leaves all of a section but its values alone.
use virt_who.Base.{String, ◌≡◌, refl, ap, subst, List, ok, raised, arith}
use virt_who.Config.Value.{Value}
use virt_who.Config.Section.{Section, Message}
use virt_who.Config.Section.Rounds.{SameTracking, KeepsTracking}
use virt_who.Config.Methods.{
  Validator, section_type, boolean, non_empty, a_list, virt_type, sm_type, unencrypted_password,
  encrypted_password, username, no_check, server, owner, filter, filter_type, hypervisor_id,
  interval, Environment, Outcome, fall_back, check_section_type, boolean_default, check_boolean,
  check_non_empty, check_list, check_interval, list_of,
}
use virt_who.Config.Methods.Virt.{
  check_virt_type, check_sm_type, check_hypervisor_id, check_latin1, check_encrypted_password,
  check_server, check_owner, check_filter_type, check_filter, server_missing,
}
use virt_who.Config.Methods.Call.{call}

-- An outcome that differs from `s` in the values at most.
abbrev OnlyValues : Section Validator → Outcome → Type 0
OnlyValues s (raised e) = Unit
OnlyValues s (ok (t, messages)) = record t { values = s.values } ≡ s

fall_back-OnlyValues : (what k : String) (s : Section Validator) → OnlyValues s (fall_back what k s)
unfolding fall_back
fall_back-OnlyValues what k s = ground arith

boolean_default-OnlyValues :
    (k : String) (s : Section Validator) → OnlyValues s (boolean_default k s)
unfolding boolean_default
boolean_default-OnlyValues k s = ground arith

check_boolean-OnlyValues : (k : String) (s : Section Validator) → OnlyValues s (check_boolean k s)
unfolding check_boolean
check_boolean-OnlyValues k s = ground (arith, boolean_default-OnlyValues k s)

list_of-OnlyValues : (k : String) (v : Value) (s : Section Validator) → OnlyValues s (list_of k v s)
unfolding list_of
list_of-OnlyValues k v s = ground arith

check_section_type-OnlyValues :
    (k : String) (s : Section Validator) → OnlyValues s (check_section_type k s)
unfolding check_section_type
check_section_type-OnlyValues k s = ground arith

check_non_empty-OnlyValues :
    (k : String) (s : Section Validator) → OnlyValues s (check_non_empty k s)
unfolding check_non_empty
check_non_empty-OnlyValues k s = ground arith

check_list-OnlyValues : (k : String) (s : Section Validator) → OnlyValues s (check_list k s)
unfolding check_list
check_list-OnlyValues k s = ground arith

check_interval-OnlyValues : (k : String) (s : Section Validator) → OnlyValues s (check_interval k s)
unfolding check_interval
check_interval-OnlyValues k s = ground arith

check_virt_type-OnlyValues :
    (k : String) (s : Section Validator) → OnlyValues s (check_virt_type k s)
unfolding check_virt_type
check_virt_type-OnlyValues k s =
    ground (arith, fall_back-OnlyValues "Unsupported virt. type is set, using default" k s)

check_sm_type-OnlyValues : (k : String) (s : Section Validator) → OnlyValues s (check_sm_type k s)
unfolding check_sm_type
check_sm_type-OnlyValues k s = ground arith

check_hypervisor_id-OnlyValues :
    (allowed : List String) (k : String) (s : Section Validator)
    → OnlyValues s (check_hypervisor_id allowed k s)
unfolding check_hypervisor_id
check_hypervisor_id-OnlyValues allowed k s = ground arith

check_latin1-OnlyValues :
    (env : Environment) (k : String) (s : Section Validator) → OnlyValues s (check_latin1 env k s)
unfolding check_latin1
check_latin1-OnlyValues env k s = ground arith

check_encrypted_password-OnlyValues :
    (env : Environment) (k : String) (s : Section Validator)
    → OnlyValues s (check_encrypted_password env k s)
unfolding check_encrypted_password
check_encrypted_password-OnlyValues env k s = ground arith

server_missing-OnlyValues : (k : String) (s : Section Validator) → OnlyValues s (server_missing k s)
unfolding server_missing
server_missing-OnlyValues k s = ground arith

check_server-OnlyValues : (k : String) (s : Section Validator) → OnlyValues s (check_server k s)
unfolding check_server
check_server-OnlyValues k s = ground (arith, server_missing-OnlyValues k s)

check_owner-OnlyValues : (k : String) (s : Section Validator) → OnlyValues s (check_owner k s)
unfolding check_owner
check_owner-OnlyValues k s = ground arith

check_filter_type-OnlyValues :
    (k : String) (s : Section Validator) → OnlyValues s (check_filter_type k s)
unfolding check_filter_type
check_filter_type-OnlyValues k s = ground arith

check_filter-OnlyValues :
    (env : Environment) (k : String) (s : Section Validator) → OnlyValues s (check_filter env k s)
unfolding check_filter
check_filter-OnlyValues env k s = ground (arith, check_list-OnlyValues k s)

call-OnlyValues :
    (env : Environment) (m : Validator) (k : String) (s : Section Validator)
    → OnlyValues s (call env m k s)
unfolding call
call-OnlyValues env section_type k s = check_section_type-OnlyValues k s
call-OnlyValues env boolean k s = check_boolean-OnlyValues k s
call-OnlyValues env non_empty k s = check_non_empty-OnlyValues k s
call-OnlyValues env a_list k s = check_list-OnlyValues k s
call-OnlyValues env virt_type k s = check_virt_type-OnlyValues k s
call-OnlyValues env sm_type k s = check_sm_type-OnlyValues k s
call-OnlyValues env unencrypted_password k s = check_latin1-OnlyValues env k s
call-OnlyValues env encrypted_password k s = check_encrypted_password-OnlyValues env k s
call-OnlyValues env username k s = check_latin1-OnlyValues env k s
call-OnlyValues env no_check k s = refl
call-OnlyValues env server k s = check_server-OnlyValues k s
call-OnlyValues env owner k s = check_owner-OnlyValues k s
call-OnlyValues env filter k s = check_filter-OnlyValues env k s
call-OnlyValues env filter_type k s = check_filter_type-OnlyValues k s
call-OnlyValues env (hypervisor_id allowed) k s = check_hypervisor_id-OnlyValues allowed k s
call-OnlyValues env interval k s = check_interval-OnlyValues k s

-- A validation method that returns, whichever it is, has changed none of the section's sets of keys
-- (unvalidated, invalid, required, missing, restricted), nor its defaults, methods and destinations.
pub call-SameTracking :
    (env : Environment) (m : Validator) (k : String) (s t : Section Validator)
    (messages : List Message)
    → call env m k s ≡ ok (t, messages)
    → SameTracking s t
call-SameTracking env m k s t messages h =
    let same : record t { values = s.values } ≡ s =
      subst (OnlyValues s) h (call-OnlyValues env m k s) in
    record {
      unvalidated = ap (λ x. x.unvalidated_keys) same;
      invalid = ap (λ x. x.invalid_keys) same;
      defaults = ap (λ x. x.defaults) same;
      methods = ap (λ x. x.validation_methods) same;
      destinations = ap (λ x. x.destinations) same;
      required = ap (λ x. x.required_keys) same;
      missing = ap (λ x. x.missing_required_keys) same;
      restricted = ap (λ x. x.restricted) same;
    }

-- The methods of the code may be taken for those that `validate` is proved for.
pub call-KeepsTracking : (env : Environment) → KeepsTracking (call env)
call-KeepsTracking env = call-SameTracking env
