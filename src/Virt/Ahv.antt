-- ===== src/Virt/Ahv.antt =====
-- `_run` of virtwho/virt/ahv/ahv.py, on what the backend answers.
pub mod Later
pub mod Rest
mod Tests
pub mod Mapping
pub mod Entities
pub mod Pages
use virt_who.Base.{
  ℕ, zero, suc, ◌+◌, String, Bool, true, false, Option, none, some, ltb, if◌then◌else◌,
}
use virt_who.Base.Method.{Finish, failure, success, Method, ◌>>=◌, return}
use virt_who.Report.{Report, host_guest, status_report}
use virt_who.Source.{Backend, Source, is_terminated, report_with, poll, send_data}

module _ (backend : Backend) where
  -- The first report: in status mode a StatusReport, without a question to the backend, else the
  -- mapping.
  unfoldable pub first_report : Method Source String Report
  first_report = if backend.status then return (report_with backend status_report) else (do
    hypervisors ← poll backend backend.mapping
    return (
        report_with backend (
          host_guest (record {
            hypervisors = hypervisors;
            exclude_hosts = backend.exclude_hosts;
            filter_hosts = backend.filter_hosts;
            filter_type = backend.filter_type;
          }))))

  -- `if initial:`, with the second of the next update.
  unfoldable pub start_round : Bool → ℕ → Method Source String ℕ
  unfolding first_report send_data
  start_round false next_update s = (success next_update, s)
  start_round true next_update s =
      (do
        report ← first_report
        _ ← send_data backend report
        λ x. (success (x.time + backend.interval), x))
        s

  abbrev send_status : Method Source String ℕ
  send_status s =
      let (sent, x) = send_data backend (report_with backend status_report) s in
      elim sent [
        | failure e ↦ (failure e, x)
        | success t ↦ (success (x.time + backend.interval), x)
      ]

  -- The second that is slept, and the report when the time for an update has come.
  unfoldable pub end_round : ℕ → Method Source String ℕ
  unfolding send_data
  end_round next_update s =
      let later = record s { time = s.time + 1 } in
      if ltb next_update later.time then send_status later else (success next_update, later)

  -- The loop, on fuel.
  unfoldable pub ahv_loop : ℕ → Bool → ℕ → Source → Option (Finish String Unit × Source)
  unfolding start_round end_round is_terminated
  ahv_loop zero initial next_update s = none
  ahv_loop (suc fuel) initial next_update s = elim (is_terminated backend s) [
    | true ↦ some (success tt, s)
    | false ↦
        let (started, x) = start_round initial next_update s in
        elim started [
          | failure e ↦ some (failure e, x)
          | success next ↦
              if backend.oneshot
              then some (success tt, x)
              else (let (ended, y) = end_round next x in
                  elim ended [
                    | failure e ↦ some (failure e, y)
                    | success later ↦ ahv_loop fuel false later y
                  ])
        ]
  ]

  -- `_run()`
  unfoldable pub ahv_run : ℕ → Source → Option (Finish String Unit × Source)
  unfolding ahv_loop
  ahv_run fuel s = ahv_loop fuel true 0 s
