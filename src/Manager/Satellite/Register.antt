-- ===== src/Manager/Satellite/Register.antt =====
-- `_register_system` and `_load_hypervisor` of the Satellite 5 manager.
use virt_who.Base.{String, Bool, false, ◌||◌, Option, none, some, if◌then◌else◌}
use virt_who.Base.Dict.{lookup, insert}
use virt_who.Base.Method.{◌>>=◌, return, raise, change}
use virt_who.Config.Value.{ℤ, pos, negsuc, int_eq}
use virt_who.Manager.Satellite.{
  fault_code, other_exception, Received, raises, gives, SatelliteError, no_login, no_user_details,
  no_channel, no_new_channel, channel_refused, no_map, map_refused, not_registered, no_profile,
  no_system, unhandled, System, SystemFile, pickled, broken, login, get_details, channel_details,
  create_channel, set_map, new_system, refresh_profile, Satellite, Act, attempt, call,
}

-- The handler around the channel's details: the code -210 says that there is none.
abbrev pub channel_of : Received Bool → Act Bool
channel_of (gives found) = return found
channel_of (raises (fault_code code)) =
    if int_eq code (negsuc 209) then return false else raise no_channel
channel_of (raises other_exception) = raise unhandled

abbrev pub expect_one : SatelliteError → ℤ → Act Unit
expect_one e result = if int_eq result (pos 1) then return tt else raise e

-- `new_system['system_id']` under the handler of the profile.
abbrev pub system_id_or : SatelliteError → Option System → Act String
system_id_or e none = raise e
system_id_or e (some system) = elim system.system_id [ none ↦ raise e | some id ↦ return id ]

module _ (satellite : Satellite) where
  -- The channel for hypervisors, which is made if it is not there.
  unfoldable pub ensure_channel : String → Act Unit
  ensure_channel name = do
    answer ← attempt (channel_details name) satellite.answer_channel
    found ← channel_of answer
    if found then return tt else (do
      made ← call no_new_channel (create_channel name) satellite.answer_create
      _ ← expect_one channel_refused made
      mapped ← call no_map set_map satellite.answer_map
      expect_one map_refused mapped)

  -- The file is written if it can be; an error is only logged.
  abbrev pub save : String → Option System → Act Unit
  save uuid system = change (λ s.
      if satellite.writable uuid
      then record s { files = insert uuid (pickled system) s.files }
      else s)

  -- `_register_system(hypervisor_uuid, hypervisor_type, systemid_filename)`
  unfoldable pub register_system : String → Act (Option System)
  unfolding ensure_channel
  register_system uuid = do
    _ ← call no_login login satellite.answer_login
    org_id ← call no_user_details get_details satellite.answer_details
    _ ← ensure_channel org_id
    system ← call not_registered (new_system uuid) satellite.answer_system
    id ← system_id_or no_profile system
    _ ← call no_profile (refresh_profile id) satellite.answer_refresh
    _ ← save uuid system
    return system

  abbrev pub or_no_system : Option System → Act System
  or_no_system none = raise no_system
  or_no_system (some system) = return system

  -- What is known of a system: a file that is not there, or is not to be used, gives an IOError.
  unfoldable pub read_or_register : String → Option SystemFile → Act (Option System)
  unfolding register_system
  read_or_register uuid none = register_system uuid
  read_or_register uuid (some (pickled system)) = return system
  read_or_register uuid (some broken) = raise unhandled

  -- `_load_hypervisor(hypervisor_uuid, hypervisor_type, force)`
  unfoldable pub load_hypervisor : Bool → String → Act System
  unfolding read_or_register
  load_hypervisor force uuid s =
      (do
        system ←
            read_or_register uuid
              (if force || satellite.force_register then none else lookup uuid s.files)
        or_no_system system)
        s
