-- ===== src/Thread/Send.antt =====
-- `_send_data` of `DestinationThread`, for a thread that is not asked for its status: what follows the
-- check-in, and the whole.
pub mod Oneshot
use virt_who.Base.{
  ℕ, zero, suc, ◌+◌, String, Bool, true, false, not, ◌&&◌, ◌||◌, Option, none, some, List, [], ◌∷◌,
  ◌++◌, all, select, is_empty, if◌then◌else◌, Result, ok, raised, ◌>>=◌, key_error, ◌==◌, string_eq,
}
use virt_who.Base.Keys.{Keys, contains}
use virt_who.Base.Dict.{Dict, lookup, insert, erase}
use virt_who.Report.{
  Report, ReportState, created, no_type, Association, Hypervisor, domain_list, host_guest,
  error_report, status_report,
}
use virt_who.Report.Filter.{Matching, association}
use virt_who.Thread.{
  Setting, Thread, Request, check_in, send_guests, heartbeat, Answer, job_state, checked_in, done,
  throttled, manager_error, fatal_error, handle_429, seconds_of, is_terminated, stop, wait, ask,
}
use virt_who.Thread.Gather.{set_batch}
use virt_who.Thread.CheckIn.{Batch, no_batch, classify, send_batch}

module _ (setting : Setting) where
  -- The loop around `sendVirtGuests` for one report, on fuel: whether the source is sent, and whether
  -- it has erred. An answer that the call does not have counts as a return.
  unfoldable pub send_guests_loop : ℕ → String → Report → Thread → Option (Bool × Bool × Thread)
  send_guests_loop zero k report t = none
  send_guests_loop (suc fuel) k report t = elim (is_terminated setting t) [
    | true ↦ some (false, false, t)
    | false ↦
        let (answer, t') = ask setting (send_guests report) t in
        let sent = record t' {
          last_report_for_source = insert k (setting.report_hash report) t'.last_report_for_source;
        } in
        elim answer [
          | done ↦ some (true, false, sent)
          | throttled retry_after ↦
              if setting.oneshot
              then some (false, true, t')
              else send_guests_loop fuel k report
                  (wait setting (seconds_of (handle_429 retry_after)) t')
          | manager_error ↦ some (false, setting.oneshot, t')
          | fatal_error ↦ some (false, setting.oneshot, t')
          | job_state st ↦ some (true, false, sent)
          | checked_in job st b ↦ some (true, false, sent)
        ]
  ]

  -- The loop over `domain_list_reports`, with the sources sent and those that have erred so far.
  unfoldable pub send_lists :
      ℕ → Dict Report → Keys → Keys → Keys → Thread → Option (Keys × Keys × Thread)
  unfolding send_guests_loop
  send_lists fuel reports [] sent erred t = some (sent, erred, t)
  send_lists fuel reports (k ∷ ks) sent erred t = elim (lookup k reports) [
    | none ↦ send_lists fuel reports ks sent erred t
    | some report ↦
        if setting.print
        then send_lists fuel reports ks sent erred t
        else elim (send_guests_loop fuel k report t) [
          | none ↦ none
          | some (is_sent, is_erred, t') ↦
              send_lists fuel reports ks (if is_sent then sent ++ (k ∷ []) else sent)
                (if is_erred then erred ++ (k ∷ []) else erred) t'
        ]
  ]

  -- The end of `_send_data`.
  unfoldable pub conclude : Keys → Keys → Thread → Thread
  conclude sent erred t =
      let handled = all (λ k. contains sent k || contains erred k) t.source_keys in
      if setting.oneshot
      then record t {
        stopped = handled || t.stopped;
        source_keys = select (λ k. not (contains sent k)) t.source_keys;
      }
      else t

-- What is to be sent: the reports of some sources, or the report of an error from a configuration.
pub data ToSend : Type 0 where
  gathered : Dict Report → ToSend
  failure : String → ToSend

module _ (matching : Matching) (setting : Setting) where
  unfoldable pub send_reports : ℕ → Dict Report → Thread → Option (Result Thread)
  unfolding classify send_batch send_lists conclude
  send_reports fuel found t = elim (classify matching setting found no_batch t) [
    | raised e ↦ some (raised e)
    | ok (b, t') ↦ elim (send_batch setting fuel found b t') [
      | none ↦ none
      | some (erred, t'') ↦
          elim (send_lists setting fuel found b.domain_list_reports [] (b.sources_erred ++ erred)
            t'') [
              | none ↦ none
              | some (sent, all_erred, t''') ↦ some (ok (conclude setting sent all_erred t'''))
            ]
    ]
  ]

  -- `_send_data(data_to_send)`: the heartbeat, whose exceptions are handled, and the reports.
  unfoldable pub send_data : ℕ → ToSend → Thread → Option (Result Thread)
  unfolding send_reports
  send_data fuel (failure name) t = some (ok (if name == setting.name then t else stop setting t))
  send_data fuel (gathered found) t =
      let t' = if t.has_owner then (ask setting heartbeat t).1 else t in
      if is_empty found then some (ok t') else send_reports fuel found t'
