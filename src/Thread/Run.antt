-- ===== src/Thread/Run.antt =====
-- `run` and `_run` of `IntervalThread`, for any thread that gathers data and sends it.
pub mod Ends
use virt_who.Base.{
  ℕ, zero, suc, ◌+◌, ◌-◌, Bool, true, false, not, ◌&&◌, Option, none, some, ltb, if◌then◌else◌,
}
use virt_who.Base.Method.{Finish, failure, success, Method, ◌>>=◌}

-- What a class of threads gives to `IntervalThread`: its state `S`, its exceptions `E` and its data
-- `D`. `failure_report` is what it sends after an exception, an ErrorReport or in status mode a
-- StatusReport; `clock` is the second in a state, and `wait` goes on for a number of seconds.
pub record Worker (S E D : Type 0) : Type 0 where
  pub interval : ℕ
  pub oneshot : Bool
  pub prepare : Method S E Unit
  pub get_data : Method S E D
  pub send_data : D → Method S E Unit
  pub failure_report : E → D
  pub is_terminated : S → Bool
  pub stop : S → S
  pub clock : S → ℕ
  pub wait : ℕ → S → S

-- The first of two steps may not have ended.
abbrev pub and_then : {A B : Type 0} → Option A → (A → Option B) → Option B
and_then none f = none
and_then (some a) f = f a

module _ {S E D : Type 0} (worker : Worker S E D) where
  -- What a round leaves: an exception, the end in oneshot mode, or the wait until the next round, which
  -- there is none of if the interval is over.
  unfoldable pub rest_of_interval : S → S → S
  rest_of_interval start s =
      let spent = worker.clock s - worker.clock start in
      if ltb worker.interval spent then s else worker.wait (worker.interval - spent) s

  -- The loop of `_run`, on fuel: `none` means that it has not ended after that many rounds.
  unfoldable pub rounds : ℕ → S → Option (Finish E Unit × S)
  unfolding rest_of_interval
  rounds zero s = none
  rounds (suc fuel) s = elim (worker.is_terminated s) [
    | true ↦ some (success tt, s)
    | false ↦
        let (sent, s') = (worker.get_data >>= worker.send_data) s in
        elim sent [
          | failure e ↦ some (failure e, s')
          | success t ↦
              if worker.oneshot
              then some (success tt, worker.stop s')
              else rounds fuel (rest_of_interval s s')
        ]
  ]

  -- `_run()`
  unfoldable pub run_once : ℕ → S → Option (Finish E Unit × S)
  unfolding rounds
  run_once fuel s =
      let (prepared, s') = worker.prepare s in
      elim prepared [ failure e ↦ some (failure e, s') | success t ↦ rounds fuel s' ]

  -- The handlers around `_run`: a thread that is terminated sends nothing.
  unfoldable pub report_failure : Finish E Unit → S → Finish E Unit × S
  report_failure (success t) s = (success tt, s)
  report_failure (failure e) s =
      if worker.is_terminated s
      then (success tt, s)
      else worker.send_data (worker.failure_report e) s

  -- The tests behind the handlers, with what goes on after the wait. An exception of the report on a
  -- failure is not handled.
  unfoldable pub decide :
      (S → Option (Finish E Unit × S)) → Finish E Unit → S → Option (Finish E Unit × S)
  decide next (failure e) s = some (failure e, s)
  decide next (success t) s =
      if worker.is_terminated s
      then some (success tt, worker.stop s)
      else if worker.oneshot
      then some (success tt, worker.stop s)
      else next (worker.wait worker.interval s)

  -- `run()`, on fuel for its loop and for those of `_run`.
  unfoldable pub run : ℕ → ℕ → S → Option (Finish E Unit × S)
  unfolding run_once report_failure decide
  run fuel zero s = none
  run fuel (suc attempts) s = elim (worker.is_terminated s) [
    | true ↦ some (success tt, s)
    | false ↦ and_then (run_once fuel s) (λ ended.
        let (reported, s') = report_failure ended.0 ended.1 in
        decide (run fuel attempts) reported s')
  ]
