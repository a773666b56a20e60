-- ===== src/Config/Methods/Call.antt =====
-- `validation_method(key)`: the method that a name stands for.
use virt_who.Base.{String}
use virt_who.Config.Section.{Section}
use virt_who.Config.Methods.{
  Validator, section_type, boolean, non_empty, a_list, virt_type, sm_type, unencrypted_password,
  encrypted_password, username, no_check, server, owner, filter, filter_type, hypervisor_id,
  interval, Environment, Outcome, silent, check_section_type, check_boolean, check_non_empty,
  check_list, check_interval,
}
use virt_who.Config.Methods.Virt.{
  check_virt_type, check_sm_type, check_hypervisor_id, check_latin1, check_username,
  check_encrypted_password, check_server, check_owner, check_filter_type, check_filter,
}

unfoldable pub call : Environment → Validator → String → Section Validator → Outcome
call env section_type k s = check_section_type k s
call env boolean k s = check_boolean k s
call env non_empty k s = check_non_empty k s
call env a_list k s = check_list k s
call env virt_type k s = check_virt_type k s
call env sm_type k s = check_sm_type k s
call env unencrypted_password k s = check_latin1 env k s
call env encrypted_password k s = check_encrypted_password env k s
call env username k s = check_username env k s
call env no_check k s = silent s
call env server k s = check_server k s
call env owner k s = check_owner k s
call env filter k s = check_filter env k s
call env filter_type k s = check_filter_type k s
call env (hypervisor_id allowed) k s = check_hypervisor_id allowed k s
call env interval k s = check_interval k s
