-- ===== src/Executor/Oneshot/Printed.antt =====
-- What a run in oneshot mode prints.
use virt_who.Base.{
  ℕ, suc, String, ◌≡◌, refl, ap, sym, ◌∙◌, true, false, Option, none, some, List, [], ◌∷◌, is_empty,
  if◌then◌else◌, arith, All, same_text, ◌==◌, string_eq, Option-cases, Bool-cases, subst, inl, inr,
}
use virt_who.Base.Keys.{Keys, contains}
use virt_who.Base.Dict.{Dict, lookup, insert, lookup-insert}
use virt_who.Base.Method.{success}
use virt_who.Report.{Report}
use virt_who.Datastore.{get, put}
use virt_who.Thread.Run.{run}
use virt_who.Source.{Backend, Source, is_terminated, get_report, polled, worker}
use virt_who.Source.Polls.{reported, run-oneshot}
use virt_who.Executor.Oneshot.{prints, start, run_sources, collect_reports, run_oneshot}

module _ (time : ℕ) where
  -- A source that is ready, and is not terminated while it polls.
  pub record IsReady (b : Backend) : Type 0 where
    pub oneshot : b.oneshot ≡ true
    pub prepared : b.prepared ≡ success tt
    pub running : is_terminated b (start time []) ≡ false
    pub to_the_end : is_terminated b (polled b (start time [])) ≡ false

  -- What it gathers, or an error report.
  abbrev pub report_of : Backend → Report
  report_of b = reported b (get_report b (start time [])).0

  -- The report of the last source with a name, or what was there before.
  abbrev pub report_named : String → List Backend → Option Report → Option Report
  report_named k [] found = found
  report_named k (b ∷ virts) found =
      report_named k virts (if b.name == k then some (report_of b) else found)

  get_report-store :
      (b : Backend) (store : Dict Report)
      → (get_report b (start time store)).0 ≡ (get_report b (start time [])).0
  unfolding get_report
  get_report-store b store = ground arith

  run-ready :
      (fuel : ℕ) (b : Backend) (store : Dict Report)
      → IsReady b
      → (s : Source) × (run (worker b) (suc fuel) (suc fuel) (start time store)
          ≡ some (success tt, s))
        × (s.store ≡ insert b.name (report_of b) store)
  unfolding is_terminated put
  run-ready fuel b store ready = (
    _,
    run-oneshot b fuel fuel (start time store) ready.oneshot ready.prepared ready.running,
    ground (
      arith,
      ready.to_the_end,
      ap (λ o. insert b.name (reported b o) store) (get_report-store b store),
    ),
  )

  -- The datastore after the sources.
  run_sources-ready :
      (fuel : ℕ) (virts : List Backend) (store : Dict Report)
      → All IsReady virts
      → (store' : Dict Report) × (run_sources (suc fuel) time virts store ≡ some store')
        × ((k : String) → lookup k store' ≡ report_named k virts (lookup k store))
  unfolding run_sources
  run_sources-ready fuel [] store ready = (store, refl, λ k. refl)
  run_sources-ready fuel (b ∷ virts) store ready =
      let (s, ran, stored) = run-ready fuel b store ready.0 in
      let (store', rest, looked_up) = run_sources-ready fuel virts s.store ready.1 in
      (
        store',
        rw (run_sources, ran) rest,
        λ k.
            looked_up k
            ∙ ap (report_named k virts)
                (ap (lookup k) stored ∙ lookup-insert b.name k (report_of b) store),
      )

  -- A report has the name of its source.
  abbrev IsNamed : String → Option Report → Type 0
  IsNamed k none = Unit
  IsNamed k (some r) = r.config_name ≡ k

  config_name-report_of : (b : Backend) → (report_of b).config_name ≡ b.name
  unfolding get_report
  config_name-report_of b = ground arith

  chosen-IsNamed :
      (k : String) (b : Backend) (found : Option Report)
      → IsNamed k found
      → IsNamed k (if b.name == k then some (report_of b) else found)
  chosen-IsNamed k b found named = elim (Bool-cases (b.name == k)) [
    | inl same ↦
        subst (λ c. IsNamed k (if c then some (report_of b) else found)) (sym same)
          (config_name-report_of b ∙ (same_text b.name k).0 same)
    | inr other ↦ subst (λ c. IsNamed k (if c then some (report_of b) else found)) (sym other) named
  ]

  report_named-IsNamed :
      (k : String) (virts : List Backend) (found : Option Report)
      → IsNamed k found
      → IsNamed k (report_named k virts found)
  report_named-IsNamed k [] found named = named
  report_named-IsNamed k (b ∷ virts) found named =
      report_named-IsNamed k virts (if b.name == k then some (report_of b) else found)
        (chosen-IsNamed k b found named)

abbrev or_found : Option Report → Option Report → Option Report
or_found none found = found
or_found (some r) found = some r

lookup-collect_reports :
    (sources : Keys) (store found : Dict Report) (j : String)
    → ((k : String) (r : Report) → lookup k store ≡ some r → r.config_name ≡ k)
    → lookup j (collect_reports sources store found)
      ≡ or_found (if contains sources j then lookup j store else none) (lookup j found)
unfolding collect_reports get contains
lookup-collect_reports [] store found j named = refl
lookup-collect_reports (source ∷ sources) store found j named =
    elim (Option-cases (lookup source store)) [
      | inl absent ↦
          ground
            (arith, absent, same_text source j, lookup-collect_reports sources store found j named)
      | inr (r, there) ↦ ground (
        arith,
        there,
        same_text source j,
        named source r there,
        lookup-insert r.config_name j r found,
        lookup-collect_reports sources store (insert r.config_name r found) j named,
      )
    ]

module _ (time : ℕ) where
  -- A run in oneshot mode that prints, with sources that are ready and not terminated while they poll,
  -- of which there is one at least, and a destination, ends, whatever the backends answer, and prints
  -- under each name that the mapper has as a source the report that the source with it gathered, or
  -- the report of its error, and nothing else.
  pub run_oneshot-prints :
      (fuel : ℕ) (sources : Keys) (virts : List Backend)
      → All (IsReady time) virts
      → is_empty virts ≡ false
      → (d : Dict Report) × (run_oneshot (suc fuel) time true sources virts true []
          ≡ some (prints d))
        × ((k : String)
            → lookup k d ≡ (if contains sources k then report_named time k virts none else none))
  unfolding run_oneshot lookup
  run_oneshot-prints fuel sources virts ready some_virts =
      let (store, ran, looked_up) = run_sources-ready time fuel virts [] ready in
      let named : (k : String) (r : Report) → lookup k store ≡ some r → r.config_name ≡ k =
        λ k r there.
          subst (IsNamed time k) (sym (looked_up k) ∙ there)
            (report_named-IsNamed time k virts none tt) in
      (
        collect_reports sources store [],
        rw (run_oneshot, some_virts, ran) refl,
        λ k. ground (arith, looked_up k, lookup-collect_reports sources store [] k named),
      )
