-- ===== src/Thread/Jobs.antt =====
-- `check_report_status` of `DestinationThread`: what has become of a submitted report.
pub mod Polling
use virt_who.Base.{
  ℕ, zero, suc, ◌*◌, Bool, true, false, not, Option, none, some, nat_eq, if◌then◌else◌,
}
use virt_who.Config.Value.{ℤ, pos, int_eq}
use virt_who.Report.{Report, ReportState, created, processing, finished, failed, canceled}
use virt_who.Thread.{
  Setting, Thread, Request, check_job, Answer, job_state, checked_in, done, throttled,
  manager_error, fatal_error, handle_429, seconds_of, minimum_job_poll_interval, wait, ask,
}

-- The test of the loop. A state is a number from 1 on, so it is never false as a test.
unfoldable pub continues : Bool → ReportState → Bool
continues first_attempt created = true
continues first_attempt processing = first_attempt
continues first_attempt finished = false
continues first_attempt failed = false
continues first_attempt canceled = false

-- How a round ends: by `break`, or by going on to the next test.
pub data Round : Type 0 where
  leave again : Report → Thread → Round

module _ (setting : Setting) where
  -- The wait before a call, which a call for the status output does not make.
  unfoldable pub poll_wait : Bool → Bool → Thread → Thread
  poll_wait first_attempt status_call t =
      if status_call
      then t
      else if not (int_eq t.interval_modifier (pos 0))
      then wait setting (seconds_of t.interval_modifier) (record t { interval_modifier = pos 0 })
      else if first_attempt
      then wait setting minimum_job_poll_interval t
      else wait setting (minimum_job_poll_interval * 2) t

  -- `self.dest.check_report_state(report, status_call)` and its handlers.
  unfoldable pub handle_answer : Answer → Report → Thread → Round
  handle_answer (job_state st) r t = again (record r { state = st }) t
  handle_answer (checked_in job st b) r t = again r t
  handle_answer done r t = again r t
  handle_answer (throttled retry_after) r t =
      if setting.oneshot
      then leave r t
      else again r (record t { interval_modifier = handle_429 retry_after })
  handle_answer manager_error r t = leave r t
  handle_answer fatal_error r t = leave r t

  unfoldable pub check_round : Bool → Bool → Report → Thread → Round
  check_round first_attempt status_call r t =
      let (answer, t') = ask setting (check_job r.job_id) (poll_wait first_attempt status_call t) in
      handle_answer answer r t'

  -- The loop, on fuel: `none` means that it has not ended after that many tests.
  unfoldable pub check_loop : ℕ → Bool → Bool → Report → Thread → Option (Report × Thread)
  check_loop zero first_attempt status_call r t = none
  check_loop (suc fuel) first_attempt status_call r t = elim (continues first_attempt r.state) [
    | false ↦ some (r, t)
    | true ↦ elim (check_round first_attempt status_call r t) [
      | leave r' t' ↦ some (r', t')
      | again r' t' ↦ check_loop fuel false status_call r' t'
    ]
  ]

  -- `check_report_status(report, status_call)`
  unfoldable pub check_report_status : ℕ → Bool → Report → Thread → Option (Report × Thread)
  check_report_status fuel status_call r t = check_loop fuel true status_call r t
