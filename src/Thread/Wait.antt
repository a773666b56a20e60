-- ===== src/Thread/Wait.antt =====
-- How long `IntervalThread.wait` waits.
use Prim.Native.Nat.{min}
use virt_who.Base.{
  ℕ, zero, suc, ◌+◌, ◌-◌, ◌≡◌, ap, ◌∙◌, true, false, none, some, if◌then◌else◌, arith, Bool-cases,
  inl, inr,
}
use virt_who.Thread.{Setting, Thread, is_terminated, wait}

module _ (setting : Setting) where
  -- The seconds until the thread is terminated, at most `n`.
  pub seconds_left : ℕ → Thread → ℕ
  seconds_left n t =
      if t.stopped then 0 else elim setting.terminate_at [ none ↦ n | some s ↦ min n (s - t.time) ]

  abbrev pub waited : ℕ → Thread → Thread
  waited n t = record t { time = t.time + n }

  waited-zero : (t : Thread) (k : ℕ) → k ≡ 0 → t ≡ waited k t
  waited-zero t k e = ap (λ (x : ℕ). record t { time = x }) (omega arith)

  waited-suc : (t : Thread) (k l : ℕ) → l ≡ k + 1 → waited k (waited 1 t) ≡ waited l t
  waited-suc t k l e = ap (λ (x : ℕ). record t { time = x }) (omega arith)

  seconds_left-zero : (t : Thread) → seconds_left 0 t ≡ 0
  unfolding seconds_left
  seconds_left-zero t = ground arith

  seconds_left-terminated :
      (n : ℕ) (t : Thread) → is_terminated setting t ≡ true → seconds_left n t ≡ 0
  unfolding seconds_left is_terminated
  seconds_left-terminated n t h = ground arith

  seconds_left-suc :
      (n : ℕ) (t : Thread)
      → is_terminated setting t ≡ false
      → seconds_left (suc n) t ≡ seconds_left n (waited 1 t) + 1
  unfolding seconds_left is_terminated
  seconds_left-suc n t h = ground arith

  -- A wait changes nothing of a thread but its time: it lasts the time asked for, unless the thread
  -- is terminated before, and then it ends as soon as that has happened, or at once if the thread
  -- was stopped.
  pub wait_lem : (n : ℕ) (t : Thread) → wait setting n t ≡ waited (seconds_left n t) t
  unfolding wait
  wait_lem zero t = waited-zero t (seconds_left 0 t) (seconds_left-zero t)
  wait_lem (suc n) t = elim (Bool-cases (is_terminated setting t)) [
    | inl over ↦
        rw over (waited-zero t (seconds_left (suc n) t) (seconds_left-terminated (suc n) t over))
    | inr more ↦ rw more (
        wait_lem n (waited 1 t)
        ∙ waited-suc t (seconds_left n (waited 1 t)) (seconds_left (suc n) t)
            (seconds_left-suc n t more))
  ]
