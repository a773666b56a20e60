-- ===== src/Executor/Oneshot.antt =====
-- `Executor.run_oneshot` of virtwho/executor.py, up to the start of the destinations.
pub mod Printed
mod Tests
use virt_who.Base.{
  ℕ, String, Bool, true, false, Option, none, some, List, [], ◌∷◌, is_empty, if◌then◌else◌, ok,
  raised,
}
use virt_who.Base.Keys.{Keys}
use virt_who.Base.Dict.{Dict, lookup, insert}
use virt_who.Report.{Report}
use virt_who.Datastore.{get}
use virt_who.Thread.Run.{run}
use virt_who.Source.{Backend, Source, worker}

-- How it goes on: virt-who exits with the code 1, the reports are printed, or the destinations start
-- with what is in the datastore.
pub data Course : Type 0 where
  exits : Course
  prints : Dict Report → Course
  starts_destinations : Dict Report → Course

abbrev pub start : ℕ → Dict Report → Source
start time store = record { time = time; stopped = false; polls = 0; store = store }

-- The sources, each with its thread, up to the end of all; `fuel` bounds both loops of a thread. Each
-- puts reports under its own name only, so the order in which they do is taken from the list. An
-- exception that ends a thread ends that thread alone.
unfoldable pub run_sources : ℕ → ℕ → List Backend → Dict Report → Option (Dict Report)
run_sources fuel time [] store = some store
run_sources fuel time (b ∷ virts) store = elim (run (worker b) fuel fuel (start time store)) [
  | none ↦ none
  | some (ended, s) ↦ run_sources fuel time virts s.store
]

-- The reports of the sources, by the names of their configurations: a source without a report is only
-- logged. The datastore is asked without a default.
unfoldable pub collect_reports : Keys → Dict Report → Dict Report → Dict Report
collect_reports [] store found = found
collect_reports (source ∷ sources) store found =
    elim (get (λ (r : Report). true) source none store) [
      | ok report ↦ collect_reports sources store (insert report.config_name report found)
      | raised e ↦ collect_reports sources store found
    ]

-- `run_oneshot()`, by the option to print, the sources of the mapper, the threads of the sources and
-- the number of the destinations: whether there is one.
unfoldable pub run_oneshot : ℕ → ℕ → Bool → Keys → List Backend → Bool → Dict Report → Option Course
unfolding run_sources collect_reports
run_oneshot fuel time print sources virts has_destinations store =
    if is_empty virts
    then some exits
    else if has_destinations
    then elim (run_sources fuel time virts store) [
      | none ↦ none
      | some store' ↦
          some (
            if print
            then prints (collect_reports sources store' [])
            else starts_destinations store')
    ]
    else some exits
