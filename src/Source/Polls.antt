-- ===== src/Source/Polls.antt =====
-- What a source in oneshot mode puts into the datastore.
use virt_who.Base.{ℕ, suc, String, ◌≡◌, true, false, some, if◌then◌else◌, arith}
use virt_who.Base.Method.{Finish, failure, success}
use virt_who.Report.{Report}
use virt_who.Datastore.{put}
use virt_who.Thread.Run.{rounds, run_once, report_failure, decide, run}
use virt_who.Source.{
  Backend, Source, is_terminated, get_report, send_data, failure_report, polled, worker,
}

-- The report that an attempt ends with.
abbrev pub reported : Backend → Finish String Report → Report
reported backend (success report) = report
reported backend (failure text) = failure_report backend text

module _ (backend : Backend) where
  get_report-polled : (s : Source) → (get_report backend s).1 ≡ polled backend s
  unfolding get_report
  get_report-polled s = ground arith

  pub run-oneshot :
      (fuel attempts : ℕ) (s : Source)
      → backend.oneshot ≡ true
      → backend.prepared ≡ success tt
      → is_terminated backend s ≡ false
      → run (worker backend) (suc fuel) (suc attempts) s
        ≡ some (
          success tt,
          record (polled backend s) {
            stopped = true;
            store =
                if is_terminated backend (polled backend s)
                then s.store
                else put backend.name (reported backend (get_report backend s).0) s.store;
          },
        )
  unfolding run worker decide report_failure run_once rounds send_data is_terminated
  run-oneshot fuel attempts s o p running = ground (arith, o, p, running, get_report-polled s)
