-- ===== src/Manager/Satellite/Notify.antt =====
-- `_assemble_plan` and `hypervisorCheckIn` of the Satellite 5 manager.
use virt_who.Base.{String, true, false, some, List, [], ◌∷◌, ◌++◌, map, if◌then◌else◌}
use virt_who.Base.Chars.{Chars, chars, join, is_char}
use virt_who.Base.Method.{◌>>=◌, failure, success, return, raise}
use virt_who.Config.Value.{negsuc, int_eq}
use virt_who.Report.{
  GuestState, unknown, running, blocked, paused, shuting_down, shutoff, crashed, pm_suspended,
  Guest, Hypervisor, Report, finished, host_guest, domain_list, error_report, status_report,
}
use virt_who.Report.Filter.{Matching, association}
use virt_who.Manager.Satellite.{
  fault_code, other_exception, Received, raises, gives, not_sent, unhandled, Event, host_exists,
  crawl_began, crawl_ended, domain_exists, System, virt_notify, Satellite, Act, attempt,
}
use virt_who.Manager.Satellite.Register.{system_id_or, load_hypervisor}

-- `GUEST_STATE_TO_SATELLITE`, and `nostate` for a state that it does not have.
unfoldable pub state_name : GuestState → String
state_name running = "running"
state_name blocked = "blocked"
state_name paused = "paused"
state_name shuting_down = "shutdown"
state_name shutoff = "shutoff"
state_name crashed = "crashed"
state_name unknown = "nostate"
state_name pm_suspended = "nostate"

-- `uuid.replace("-", "")`
unfoldable pub without_dashes : Chars → Chars
without_dashes [] = []
without_dashes (c ∷ cs) = let rest = without_dashes cs in if is_char b'-' c then rest else c ∷ rest

-- `"VM %s from %s hypervisor %s"`
abbrev pub domain_name : String → String → String → String
domain_name uuid hypervisor_type hypervisor_uuid = join (
    chars "VM "
    ++ chars uuid
    ++ chars " from "
    ++ chars hypervisor_type
    ++ chars " hypervisor "
    ++ chars hypervisor_uuid)

abbrev pub domain_event : String → String → Guest → Event
domain_event hypervisor_type hypervisor_uuid guest =
    domain_exists (join (without_dashes (chars guest.uuid)))
      (domain_name guest.uuid hypervisor_type hypervisor_uuid) (state_name guest.state)

-- `_assemble_plan(guests, hypervisor_uuid, hypervisor_type)`
unfoldable pub assemble_plan : String → Hypervisor → List Event
unfolding state_name without_dashes
assemble_plan hypervisor_type h =
    host_exists ∷ crawl_began ∷ map (domain_event hypervisor_type h.hypervisor_id) h.guest_ids
    ++ (crawl_ended ∷ [])

-- `except Exception` around the calls for a hypervisor.
abbrev pub or_not_sent : {T : Type 0} → Act T → Act T
or_not_sent m s =
    let (o, s') = m s in elim o [ failure e ↦ (failure not_sent, s') | success t ↦ (success t, s') ]

abbrev pub or_raise : Received Unit → Act Unit
or_raise (raises x) = raise not_sent
or_raise (gives t) = return tt

module _ (satellite : Satellite) where
  -- `virt_notify`, by a system that may not have an id.
  abbrev pub notify : System → List Event → Act (Received Unit)
  notify system plan = do
    id ← system_id_or not_sent (some system)
    attempt (virt_notify id plan) satellite.answer_notify

  -- The handler of a fault: the code -9 says that the system was deleted, and of another code
  -- nothing is made.
  unfoldable pub after_notify : Hypervisor → List Event → Received Unit → Act Unit
  after_notify h plan (gives t) = return tt
  after_notify h plan (raises (fault_code code)) =
      if int_eq code (negsuc 8)
      then (do
        system ← load_hypervisor satellite true h.hypervisor_id
        answer ← notify system plan
        or_raise answer)
      else return tt
  after_notify h plan (raises other_exception) = raise not_sent

  -- A round for a hypervisor.
  unfoldable pub send_hypervisor : Hypervisor → Act Unit
  unfolding after_notify assemble_plan
  send_hypervisor h = do
    system ← load_hypervisor satellite false h.hypervisor_id
    let plan = assemble_plan satellite.hypervisor_type h
    or_not_sent (notify system plan >>= after_notify h plan)

  -- The loop of `hypervisorCheckIn`; behind it the report is finished.
  unfoldable pub send_each : List Hypervisor → Act Unit
  unfolding send_hypervisor
  send_each [] = return tt
  send_each (h ∷ hs) = do _ ← send_hypervisor h; send_each hs

  -- `hypervisorCheckIn(report)`, with the report as it then is.
  unfoldable pub check_in_satellite : Matching → Report → Act Report
  unfolding send_each
  check_in_satellite matching report = elim report.content [
    | host_guest r ↦ do
      _ ← send_each (association matching r)
      return (record report { state = finished })
    | domain_list guests hypervisor_id ↦ raise unhandled
    | error_report ↦ raise unhandled
    | status_report ↦ raise unhandled
  ]
