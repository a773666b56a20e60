-- ===== src/Config/Virt.antt =====
-- `VirtConfigSection` of virtwho/config.py: the options of a section for a virtualization backend.
pub mod Required
use virt_who.Base.{
  String, Bool, true, false, not, ◌&&◌, Option, none, some, List, [], ◌∷◌, if◌then◌else◌, Result,
  ok, raised, ◌>>=◌, ◌==◌, string_eq,
}
use virt_who.Base.Keys.{discard, union}
use virt_who.Base.Dict.{Dict, lookup}
use virt_who.Config.Value.{Value, str, value_eq}
use virt_who.Config.Section.{Section, has_value, get_item, set_item, update_items}
use virt_who.Config.Section.Define.{add_key, remove_key, new_section}
use virt_who.Config.Section.Validate.{validate}
use virt_who.Config.Methods.{
  Validator, section_type, non_empty, virt_type, sm_type, unencrypted_password, encrypted_password,
  username, no_check, server, owner, filter, filter_type, hypervisor_id, Environment,
}
use virt_who.Config.Methods.Virt.{sat5, sat6}
use virt_who.Config.Methods.Call.{call}

-- The arguments of one call of `add_key`.
pub record OptionSpec : Type 0 where
  pub key : String
  pub method : Validator
  pub default : Option Value
  pub destination : Option String
  pub required : Bool
  pub restricted : Bool

abbrev plain : String → Validator → OptionSpec
plain k m = record {
  key = k;
  method = m;
  default = none;
  destination = none;
  required = false;
  restricted = false;
}

abbrev with_default : String → Validator → String → OptionSpec
with_default k m d = record (plain k m) { default = some (str d) }

abbrev moved : String → String → OptionSpec
moved k d = record (plain k encrypted_password) { destination = some d }

-- The calls of `__init__`, in their order.
virt_options : List String → List OptionSpec
virt_options hypervisor_ids =
    with_default "type" virt_type "libvirt"
    ∷ record (with_default "sm_type" sm_type "sam") { restricted = true }
    ∷ with_default "hypervisor_id" (hypervisor_id hypervisor_ids) "uuid"
    ∷ plain "password" unencrypted_password
    ∷ plain "rhsm_password" unencrypted_password
    ∷ plain "rhsm_proxy_password" unencrypted_password
    ∷ plain "sat_password" unencrypted_password
    ∷ moved "encrypted_password" "password"
    ∷ moved "rhsm_encrypted_password" "rhsm_password"
    ∷ moved "rhsm_encrypted_proxy_password" "rhsm_proxy_password"
    ∷ moved "sat_encrypted_password" "sat_password"
    ∷ plain "username" username
    ∷ plain "rhsm_username" username
    ∷ plain "rhsm_proxy_user" username
    ∷ plain "sat_username" username
    ∷ plain "sat_server" no_check
    ∷ plain "server" server
    ∷ record (plain "owner" owner) { required = true }
    ∷ plain "filter_hosts" filter
    ∷ plain "filter_type" filter_type
    ∷ plain "exclude_hosts" filter
    ∷ plain "rhsm_proxy_hostname" non_empty
    ∷ plain "rhsm_proxy_port" non_empty
    ∷ plain "rhsm_hostname" non_empty
    ∷ plain "rhsm_port" non_empty
    ∷ plain "rhsm_prefix" non_empty
    ∷ plain "rhsm_insecure" non_empty
    ∷ plain "rhsm_no_proxy" non_empty
    ∷ []

unfoldable pub add_each : List OptionSpec → Section Validator → Result (Section Validator)
add_each [] s = ok s
add_each (o ∷ os) s = do
  s' ← add_key o.key (some o.method) o.default o.destination o.required o.restricted s
  add_each os s'

-- `VirtConfigSection(section_name, wrapper)` for a class with the given `HYPERVISOR_ID`.
unfoldable pub new_virt_section : List String → String → Result (Section Validator)
unfolding add_each virt_options
new_virt_section hypervisor_ids name =
    add_each (virt_options hypervisor_ids)
      (new_section (("sm_type", str "sam") ∷ []) section_type name)

-- `RENAMED_OPTIONS`
unfoldable pub renamed : String → String
renamed k =
    if k == "filter_host_uuids"
    then "filter_hosts"
    else if k == "exclude_host_uuids"
    then "exclude_hosts"
    else k

-- `self[key] = value` of this class.
unfoldable pub set_virt_item : String → Value → Section Validator → Section Validator
unfolding renamed
set_virt_item k v s = set_item (renamed k) v s

-- `virt_type` is taken for `type`, if that is not given.
unfoldable pub adopt_virt_type : Section Validator → Section Validator
unfolding set_virt_item
adopt_virt_type s = elim (lookup "virt_type" s.values) [
  | none ↦ s
  | some v ↦ if has_value s "type" then s else remove_key "virt_type" (set_virt_item "type" v s)
]

abbrev without_owner : Section Validator → Section Validator
without_owner s = record s { required_keys = discard "owner" s.required_keys }

-- Which options are required, by the type of the subscription manager.
unfoldable pub set_required : Section Validator → Result (Section Validator)
set_required s = elim (lookup "sm_type" s.values) [
  | none ↦ ok s
  | some v ↦
      if value_eq v (str sat5)
      then ok (
          without_owner (record s {
            required_keys =
                union s.required_keys ("sat_server" ∷ "sat_username" ∷ "sat_password" ∷ []);
          }))
      else if value_eq v (str sat6)
      then (do
        type ← get_item s "type"
        ok (
            if value_eq type (str "libvirt") && not (has_value s "server")
            then without_owner s
            else if value_eq type (str "fake")
            then without_owner s
            else s))
      else ok s
]

-- `validate` of this class: its `_pre_validate` ends with that of `ConfigSection`, with which
-- `Validate.validate` begins.
unfoldable pub validate_virt : Environment → Section Validator → Result (Section Validator)
unfolding adopt_virt_type set_required
validate_virt env s = do s' ← set_required (adopt_virt_type s); validate (call env) s'

-- `from_dict(values, section_name, wrapper)` for the class that `class_for_type` finds.
unfoldable pub virt_section_of : List String → Dict Value → String → Result (Section Validator)
unfolding new_virt_section
virt_section_of hypervisor_ids values name = do
  s ← new_virt_section hypervisor_ids name
  ok (update_items set_virt_item values s)
