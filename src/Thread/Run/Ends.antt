-- ===== src/Thread/Run/Ends.antt =====
-- When `run` ends.
use virt_who.Base.{ℕ, zero, suc, ◌≡◌, refl, Bool, true, false, Option, none, some, arith}
use virt_who.Base.Method.{Finish, failure, success}
use virt_who.Thread.Run.{Worker, and_then, run_once, report_failure, decide, run}

-- Of a function that may not end: where it returns, `P` holds.
abbrev Returns : {S E : Type 0} → (S → Type 0) → (S → Option (Finish E Unit × S)) → Type 0
Returns {S = S} P f = (s s' : S) → f s ≡ some (success tt, s') → P s'

module _ {S E D : Type 0} (worker : Worker S E D) where
  abbrev Stopped : S → Type 0
  Stopped s = worker.is_terminated s ≡ true

  module _ (stops : (s : S) → Stopped (worker.stop s)) (next : S → Option (Finish E Unit × S))
      (later : Returns Stopped next) where
    decide-Stopped :
        (o : Finish E Unit) (s s' : S) → decide worker next o s ≡ some (success tt, s') → Stopped s'
    unfolding decide
    decide-Stopped (failure e) s s' returned = cc
    decide-Stopped (success t) s s' returned =
        ground (arith, stops s, later (worker.wait worker.interval s) s')

    attempt-Stopped :
        (o : Option (Finish E Unit × S)) (s' : S)
        → and_then o (λ ended.
          let (reported, x) = report_failure worker ended.0 ended.1 in
          decide worker next reported x)
          ≡ some (success tt, s')
        → Stopped s'
    attempt-Stopped none s' returned = cc
    attempt-Stopped (some ended) s' returned =
        let (reported, x) = report_failure worker ended.0 ended.1 in
        decide-Stopped reported x s' returned

    whole-Stopped :
        (b : Bool) (o : Option (Finish E Unit × S)) (s s' : S)
        → worker.is_terminated s ≡ b
        → elim b as (λ x. Option (Finish E Unit × S)) [
          | true ↦ some (success tt, s)
          | false ↦ and_then o (λ ended.
              let (reported, x) = report_failure worker ended.0 ended.1 in
              decide worker next reported x)
        ]
          ≡ some (success tt, s')
        → Stopped s'
    whole-Stopped true o s s' tested returned = ground (arith, tested, returned)
    whole-Stopped false o s s' tested returned = attempt-Stopped o s' returned

  -- Where `stop` terminates a thread, a thread that has returned from `run`, not by an exception, is
  -- terminated: in oneshot mode and outside it, whatever was raised and sent.
  pub run-Stopped :
      ((s : S) → worker.is_terminated (worker.stop s) ≡ true)
      → (fuel attempts : ℕ) (s s' : S) → run worker fuel attempts s ≡ some (success tt, s')
      → worker.is_terminated s' ≡ true
  unfolding run
  run-Stopped stops fuel zero s s' returned = cc
  run-Stopped stops fuel (suc attempts) s s' returned =
      whole-Stopped stops (run worker fuel attempts) (run-Stopped stops fuel attempts)
        (worker.is_terminated s) (run_once worker fuel s) s s' refl returned
