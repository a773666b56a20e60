-- ===== src/Thread/Satellite.antt =====
-- `Satellite5DestinationThread` of virtwho/virt/virt.py: a check-in for each report.
pub mod Busy
use virt_who.Base.{
  ℕ, zero, suc, String, Bool, true, false, not, Option, none, some, List, [], ◌∷◌, ◌++◌, all,
  select, is_empty, if◌then◌else◌,
}
use virt_who.Base.Keys.{Keys, contains}
use virt_who.Base.Dict.{Dict, insert}
use virt_who.Report.{Report, Hypervisor, domain_list, host_guest, error_report, status_report}
use virt_who.Report.Filter.{Matching, association}
use virt_who.Thread.{
  Setting, Thread, Request, check_in, Answer, job_state, checked_in, done, throttled, manager_error,
  fatal_error, handle_429, is_terminated, stop, ask,
}
use virt_who.Thread.Send.{ToSend, gathered, failure}

-- How the check-in of one report ends: it is sent, it has erred, the thread is terminated, or a
-- ManagerError is raised, which `_send_data` does not handle.
pub data Attempt : Type 0 where
  sent erred given_up manager_failure : Thread → Attempt

-- How `_send_data` ends.
pub data Ended : Type 0 where
  returned failed : Thread → Ended

module _ (setting : Setting) where
  -- The loop around `hypervisorCheckIn`, on fuel. Any answer that is no exception is a result.
  unfoldable pub check_in_report : ℕ → String → Report → List Hypervisor → Thread → Option Attempt
  check_in_report zero k report hypervisors t = none
  check_in_report (suc fuel) k report hypervisors t = elim (is_terminated setting t) [
    | true ↦ some (given_up t)
    | false ↦
        let (answer, t') = ask setting (check_in hypervisors) t in
        let accepted = record t' {
          last_report_for_source = insert k (setting.report_hash report) t'.last_report_for_source;
        } in
        elim answer [
          | checked_in job st b ↦ some (sent accepted)
          | throttled retry_after ↦
              if setting.oneshot
              then some (erred t')
              else check_in_report fuel k report hypervisors
                  (record t' { interval_modifier = handle_429 retry_after })
          | fatal_error ↦ some (erred t')
          | manager_error ↦ some (manager_failure t')
          | job_state st ↦ some (sent accepted)
          | done ↦ some (sent accepted)
        ]
  ]

  -- The end of `_send_data`. What has erred is not looked at.
  unfoldable pub conclude_reports : Keys → Thread → Thread
  conclude_reports sources_sent t =
      if setting.oneshot
      then record t {
        stopped = if all (contains sources_sent) t.source_keys then true else t.stopped;
        source_keys = select (λ k. not (contains sources_sent k)) t.source_keys;
      }
      else t

module _ (matching : Matching) (setting : Setting) where
  -- The loop over the reports, with the sources sent so far.
  unfoldable pub send_each : ℕ → Dict Report → Keys → Thread → Option Ended
  unfolding check_in_report conclude_reports association
  send_each fuel [] sources_sent t = some (returned (conclude_reports setting sources_sent t))
  send_each fuel ((k, report) ∷ rest) sources_sent t = elim report.content [
    | domain_list guests hypervisor_id ↦ send_each fuel rest sources_sent t
    | host_guest r ↦ elim (check_in_report setting fuel k report (association matching r) t) [
      | none ↦ none
      | some attempt ↦ elim attempt [
        | sent t' ↦ send_each fuel rest (sources_sent ++ (k ∷ [])) t'
        | erred t' ↦ send_each fuel rest sources_sent t'
        | given_up t' ↦ send_each fuel rest sources_sent t'
        | manager_failure t' ↦ some (failed t')
      ]
    ]
    | error_report ↦
        send_each fuel rest (if setting.oneshot then sources_sent ++ (k ∷ []) else sources_sent) t
    | status_report ↦ send_each fuel rest sources_sent t
  ]

  -- `_send_data(data_to_send)`
  unfoldable pub send_data_satellite5 : ℕ → ToSend → Thread → Option Ended
  unfolding send_each
  send_data_satellite5 fuel (failure name) t = some (returned (stop setting t))
  send_data_satellite5 fuel (gathered found) t =
      if is_empty found then some (returned t) else send_each fuel found [] t
