-- ===== src/Thread/CheckIn.antt =====
-- The part of `_send_data` of `DestinationThread` that checks the hypervisors in: the loop over the
-- reports, and the loop around `hypervisorCheckIn`. The run data file (`record_status`) is left out.
pub mod Noted
use virt_who.Base.{
  ℕ, zero, suc, ◌+◌, String, Bool, true, false, not, ◌&&◌, ◌||◌, Option, none, some, List, [], ◌∷◌,
  ◌++◌, all, select, is_empty, if◌then◌else◌, Result, ok, raised, ◌>>=◌, key_error, ◌==◌, string_eq,
}
use virt_who.Config.Value.{ℤ, pos}
use virt_who.Base.Keys.{Keys, contains}
use virt_who.Base.Dict.{Dict, lookup, insert, erase}
use virt_who.Report.{
  Report, ReportState, created, other_type, Association, Hypervisor, domain_list, host_guest,
  error_report, status_report,
}
use virt_who.Report.Filter.{Matching, association}
use virt_who.Thread.{
  Setting, Thread, Request, check_in, send_guests, heartbeat, Answer, job_state, checked_in, done,
  throttled, manager_error, fatal_error, handle_429, seconds_of, is_terminated, stop, wait, ask,
}
use virt_who.Thread.Gather.{set_batch}

-- What the loop over the reports collects.
pub record Batch : Type 0 where
  pub all_hypervisors : List Hypervisor
  pub domain_list_reports : Keys
  pub reports_batched : Keys
  pub sources_erred : Keys

abbrev pub no_batch : Batch
no_batch = record {
  all_hypervisors = [];
  domain_list_reports = [];
  reports_batched = [];
  sources_erred = [];
}

module _ (matching : Matching) (setting : Setting) where
  -- `self.config['owner'] = report.config['owner']`, if the thread's configuration has no owner.
  unfoldable pub adopt_owner : Report → Thread → Result Thread
  adopt_owner report t =
      if t.has_owner
      then ok t
      else if setting.report_owner report
      then ok (record t { has_owner = true })
      else raised key_error

  -- A round for a report with hypervisors.
  unfoldable pub add_hypervisors : String → Association → Batch → Thread → Batch × Thread
  unfolding association
  add_hypervisors k r b t =
      let hypervisors = association matching r in
      (
        record b {
          all_hypervisors = b.all_hypervisors ++ hypervisors;
          reports_batched = b.reports_batched ++ (k ∷ []);
        },
        if is_empty hypervisors
            then record t { last_report_for_source = erase k t.last_report_for_source }
            else t,
      )

  -- The loop over the reports.
  unfoldable pub classify : Dict Report → Batch → Thread → Result (Batch × Thread)
  unfolding adopt_owner add_hypervisors
  classify [] b t = ok (b, t)
  classify ((k, report) ∷ rest) b t = elim report.content [
    | host_guest r ↦ do
      t' ← adopt_owner report t
      let (b', t'') = add_hypervisors k r b t'
      classify rest b' t''
    | domain_list guests hypervisor_id ↦
        classify rest (record b { domain_list_reports = b.domain_list_reports ++ (k ∷ []) }) t
    | error_report ↦
        classify rest
          (if setting.oneshot then record b { sources_erred = b.sources_erred ++ (k ∷ []) } else b)
          t
    | status_report ↦ classify rest b t
  ]

-- What a check-in comes to: no result, or a job with its state and whether the result is true.
pub data CheckIn : Type 0 where
  no_result : CheckIn
  accepted : Option String → ReportState → Bool → CheckIn

module _ (setting : Setting) where
  -- The end of a check-in, with the sources that have erred by it.
  abbrev pub give_up : Keys → Thread → CheckIn × Keys × Thread
  give_up reports_batched t = (no_result, if setting.oneshot then reports_batched else [], t)

  -- `self.interval_modifier = retry_after` and the wait at the end of a round.
  abbrev pub wait_again : ℤ → Thread → Thread
  wait_again retry_after t =
      record (wait setting (seconds_of retry_after)
        (record t { interval_modifier = retry_after })) { interval_modifier = pos 0 }

  -- The loop around `hypervisorCheckIn`, on fuel. An answer that the call does not have counts as a
  -- result that is false.
  unfoldable pub check_in_loop :
      ℕ → List Hypervisor → Keys → Thread → Option (CheckIn × Keys × Thread)
  check_in_loop zero hypervisors reports_batched t = none
  check_in_loop (suc fuel) hypervisors reports_batched t = elim (is_terminated setting t) [
    | true ↦ some (no_result, [], t)
    | false ↦
        let (answer, t') = ask setting (check_in hypervisors) t in
        elim answer [
          | checked_in job st b ↦ some (accepted job st b, [], t')
          | throttled retry_after ↦
              if setting.oneshot
              then some (give_up reports_batched t')
              else check_in_loop fuel hypervisors reports_batched
                  (wait_again (handle_429 retry_after) t')
          | manager_error ↦ some (give_up reports_batched t')
          | fatal_error ↦ some (give_up reports_batched t')
          | job_state st ↦ some (accepted none created false, [], t')
          | done ↦ some (accepted none created false, [], t')
        ]
  ]

  -- The entries of `submitted_report_and_hash_for_source` for one batch.
  unfoldable pub submit_each : ℕ → Dict Report → Keys → Dict (ℕ × ℕ) → Dict (ℕ × ℕ)
  submit_each n reports [] submitted = submitted
  submit_each n reports (k ∷ ks) submitted = elim (lookup k reports) [
    | none ↦ submit_each n reports ks submitted
    | some report ↦ submit_each n reports ks (insert k (n, setting.report_hash report) submitted)
  ]

  abbrev pub batch_report : List Hypervisor → Option String → ReportState → Report
  batch_report hypervisors job st = record {
    config_name = setting.name;
    state = st;
    job_id = job;
    content = host_guest (record {
      hypervisors = hypervisors;
      exclude_hosts = none;
      filter_hosts = none;
      filter_type = other_type;
    });
  }

  -- What follows the loop: `if result:`.
  unfoldable pub note_check_in : Dict Report → Batch → CheckIn → Thread → Thread
  unfolding submit_each
  note_check_in reports b no_result t = t
  note_check_in reports b (accepted job st false) t = t
  note_check_in reports b (accepted job st true) t = record t {
    submitted_report_and_hash_for_source =
        submit_each t.next_batch reports b.reports_batched t.submitted_report_and_hash_for_source;
    batches = set_batch t.next_batch (batch_report b.all_hypervisors job st) t.batches;
    next_batch = t.next_batch + 1;
  }

  -- The check-in of a batch that is not empty.
  unfoldable pub send_batch : ℕ → Dict Report → Batch → Thread → Option (Keys × Thread)
  unfolding check_in_loop note_check_in
  send_batch fuel reports b t =
      if is_empty b.all_hypervisors
      then some ([], t)
      else elim (check_in_loop fuel b.all_hypervisors b.reports_batched t) [
        | none ↦ none
        | some (result, erred, t') ↦ some (erred, note_check_in reports b result t')
      ]
