-- ===== src/Manager/Calls.antt =====
-- What the manager sends: `hypervisorCheckIn`, `sendVirtGuests` and `hypervisorHeartbeat`.
pub mod Taken
pub mod Sent
use virt_who.Base.Method.{failure, success, ◌>>=◌, return, raise, change}
use virt_who.Base.{
  ℕ, String, Bool, true, false, Option, none, some, List, [], ◌∷◌, map, if◌then◌else◌, key_error,
  type_error, attribute_error, ok, raised,
}
use virt_who.Base.Dict.{Dict, update}
use virt_who.Base.Sorted.{sort_by}
use virt_who.Config.Value.{Value}
use virt_who.Config.Section.{Section, get_item}
use virt_who.Report.{
  Report, ReportState, created, finished, Guest, GuestDict, guest_dict, Hypervisor, Content,
  domain_list, host_guest, error_report, status_report,
}
use virt_who.Report.Filter.{Matching, association}
use virt_who.Manager.{
  Fault, bad_status_line, rate_limit_exceeded, gone, connection_exception, crash, Failure,
  interrupted, consumer_gone, failed_with_code, failed, throttle, escaped, Call, has_capability,
  hypervisor_check_in, update_consumer, hypervisor_heartbeat, CheckInResult, Rhsm, Session, Ending,
  Action, from_result, issue, rescue,
}
use virt_who.Manager.Mapping.{HostMapping, hypervisor_mapping}
use virt_who.Manager.Connect.{connect, uuid}

-- `"... failed with code %d: %s"`, if the exception has a code.
abbrev pub connection_failure : Option ℕ → String → Failure
connection_failure none text = failed text
connection_failure (some code) text = failed_with_code code text

-- The handlers around a check-in, which are those around a heartbeat too.
unfoldable pub check_in_failure : Fault → Failure
check_in_failure bad_status_line = interrupted
check_in_failure (rate_limit_exceeded retry_after) = throttle retry_after
check_in_failure (gone code text) = consumer_gone
check_in_failure (connection_exception code text) = connection_failure code text
check_in_failure (crash e) = escaped (crash e)

-- The handlers around `updateConsumer`.
unfoldable pub update_failure : Fault → Failure
update_failure (gone code text) = consumer_gone
update_failure (rate_limit_exceeded retry_after) = throttle retry_after
update_failure f = escaped f

-- `named_options`: the options of the global section, set one by one, or none without options.
unfoldable pub named_options : Option (Dict Value) → Option (Dict Value)
named_options none = none
named_options (some options) = some (update [] options)

abbrev pub is_type_error : Failure → Bool
is_type_error (escaped (crash type_error)) = true
is_type_error _ = false

-- `except TypeError:` around the first check-in.
abbrev pub or_on_type_error : {T : Type 0} → Action T → Action T → Action T
or_on_type_error first second s =
    let (o, s') = first s in
    elim o [
      | success t ↦ (success t, s')
      | failure e ↦ if is_type_error e then second s' else (failure e, s')
    ]

module _ (rhsm : Rhsm) (matching : Matching) where
  -- `_is_rhsm_server_async`
  abbrev pub is_rhsm_server_async : Action Bool
  is_rhsm_server_async = issue has_capability rhsm.answer_capability

  -- `report.association['hypervisors']`
  abbrev pub hypervisors_in : Content → Action (List Hypervisor)
  hypervisors_in (host_guest r) = return (association matching r)
  hypervisors_in (domain_list guests hypervisor_id) = raise (escaped (crash attribute_error))
  hypervisors_in error_report = raise (escaped (crash attribute_error))
  hypervisors_in status_report = raise (escaped (crash attribute_error))

  -- The call of `hypervisorCheckIn`, with and then without options, and the handlers around it.
  unfoldable pub call_check_in : Value → HostMapping → Option (Dict Value) → Action CheckInResult
  unfolding check_in_failure
  call_check_in owner mapping options = rescue check_in_failure (
      or_on_type_error
        (issue (hypervisor_check_in owner mapping (some options)) rhsm.answer_check_in)
        (issue (hypervisor_check_in owner mapping none) rhsm.answer_check_in))

  -- `report.job_id = result['id']`
  abbrev pub note_job : Option String → Action Unit
  note_job none = raise (escaped (crash key_error))
  note_job (some id) = change (λ s. record s { report = record s.report { job_id = some id } })

  -- `report.state` and `report.job_id` after a check-in that the server has taken.
  unfoldable pub note_result : Bool → CheckInResult → Action Unit
  note_result true result s =
      note_job result.id (record s { report = record s.report { state = created } })
  note_result false result s =
      (success tt, record s { report = record s.report { state = finished } })

  abbrev pub finish_check_in : Bool → CheckInResult → Action CheckInResult
  finish_check_in is_async result = do _ ← note_result is_async result; return result

  -- The part of `hypervisorCheckIn` behind `is_async`, in three steps.
  abbrev pub send_mapping :
      {M : Type 0}
      → Section M
      → Option (Dict Value)
      → Bool
      → List Hypervisor
      → Value
      → Action CheckInResult
  send_mapping config options is_async hypervisors owner = do
    result ← call_check_in owner (hypervisor_mapping is_async hypervisors).0 (named_options options)
    finish_check_in is_async result

  abbrev pub send_hypervisors :
      {M : Type 0} → Section M → Option (Dict Value) → Bool → List Hypervisor → Action CheckInResult
  send_hypervisors config options is_async hypervisors = do
    owner ← from_result (get_item config "owner")
    send_mapping config options is_async hypervisors owner

  abbrev pub send_report :
      {M : Type 0} → Section M → Option (Dict Value) → Report → Bool → Action CheckInResult
  send_report config options report is_async = do
    hypervisors ← hypervisors_in report.content
    send_hypervisors config options is_async hypervisors

  -- `hypervisorCheckIn(report, options)`
  unfoldable pub check_in_hosts :
      {M : Type 0} → Section M → Option (Dict Value) → Action CheckInResult
  check_in_hosts config options s =
      (do
        _ ← connect rhsm config
        is_async ← is_rhsm_server_async
        send_report config options s.report is_async)
        s

  -- `sendVirtGuests(report, options)`: the list is sorted in place.
  unfoldable pub send_virt_guests : {M : Type 0} → Section M → Action Unit
  unfolding update_failure
  send_virt_guests config s = elim s.report.content [
    | domain_list guests hypervisor_id ↦
        (do
          let ordered = sort_by (λ (g : Guest). g.uuid) guests
          _ ← connect rhsm config
          _ ← change (λ x. record x {
            report = record x.report { content = domain_list ordered hypervisor_id };
          })
          _ ← rescue update_failure (do
            id ← uuid rhsm
            issue (update_consumer id (map guest_dict ordered) hypervisor_id) rhsm.answer_update)
          change (λ x. record x { report = record x.report { state = finished } }))
          s
    | host_guest r ↦ raise (escaped (crash attribute_error)) s
    | error_report ↦ raise (escaped (crash attribute_error)) s
    | status_report ↦ raise (escaped (crash attribute_error)) s
  ]

  -- `hypervisorHeartbeat(config, options)`
  unfoldable pub beat : {M : Type 0} → Section M → Option (Dict Value) → Action Bool
  unfolding check_in_failure named_options
  beat config options = rescue check_in_failure (do
    _ ← connect rhsm config
    owner ← from_result (get_item config "owner")
    issue (hypervisor_heartbeat owner (named_options options)) rhsm.answer_heartbeat)
