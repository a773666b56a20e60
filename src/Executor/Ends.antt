-- ===== src/Executor/Ends.antt =====
-- When `wait_on_threads` ends.
use virt_who.Base.{
  ℕ, zero, suc, ◌+◌, ◌-◌, ◌≤◌, ◌<◌, ◌≡◌, refl, Bool, true, false, inl, inr, Bool-cases, none, some,
  List, [], ◌∷◌, length, is_empty, leb, arith,
}
use virt_who.Executor.{Terminated, sweep, Waited, wait_loop, wait_on_threads}

-- A sweep of threads that are all terminated leaves fewer.
length-sweep :
    (is_terminated : ℕ → Bool) (threads : List ℕ)
    → length (sweep is_terminated threads) ≤ length threads
unfolding sweep
length-sweep is_terminated [] = omega arith
length-sweep is_terminated (x ∷ []) = ground arith
length-sweep is_terminated (x ∷ y ∷ threads) =
    ground (arith, length-sweep is_terminated threads, length-sweep is_terminated (y ∷ threads))

length-sweep_terminated :
    (is_terminated : ℕ → Bool) (threads : List ℕ)
    → ((n : ℕ) → is_terminated n ≡ true)
    → is_empty threads ≡ false
    → length (sweep is_terminated threads) + 1 ≤ length threads
unfolding sweep
length-sweep_terminated is_terminated [] over some_left = cc
length-sweep_terminated is_terminated (x ∷ []) over some_left = rw (over x) (omega arith)
length-sweep_terminated is_terminated (x ∷ y ∷ threads) over some_left =
    rw (over x) (ground (arith, length-sweep is_terminated threads))

module _ (terminated : Terminated) where
  shrinks :
      (fuel : ℕ) (threads : List ℕ) (time last : ℕ)
      → ((s n : ℕ) → last ≤ s → terminated s n ≡ true)
      → is_empty threads ≡ false
      → (last - time) + length threads < suc fuel
      → (last - (time + 1)) + length (sweep (terminated time) threads) < fuel
  shrinks fuel threads time last over more h = elim (Bool-cases (leb last time)) [
    | inl past ↦
        let reached : last ≤ time = ground arith in
        let fewer =
          length-sweep_terminated (terminated time) threads (λ n. over time n reached) more in
        omega (arith, fewer)
    | inr ahead ↦
        let to_come : time < last = ground arith in
        let no_more = length-sweep (terminated time) threads in omega (arith, no_more)
  ]

  wait_loop-ends :
      (fuel : ℕ) (kill : Bool) (threads : List ℕ) (total time last : ℕ)
      → ((s n : ℕ) → last ≤ s → terminated s n ≡ true)
      → (last - time) + length threads < fuel
      → (w : Waited) × (wait_loop terminated fuel none kill threads total time ≡ some w)
        × (w.remaining ≡ [])
        × (w.killed ≡ [])
  unfolding wait_loop
  wait_loop-ends zero kill threads total time last over h = absurd (omega arith)
  wait_loop-ends (suc fuel) kill threads total time last over h =
      let left = sweep (terminated time) threads in
      elim (Bool-cases (is_empty threads)) [
        | inl e ↦ (
          record { remaining = []; killed = []; time = time },
          rw (wait_loop, e) refl,
          refl,
          refl,
        )
        | inr more ↦ elim (Bool-cases (is_empty left)) [
          | inl e ↦ (
            record { remaining = []; killed = []; time = time },
            rw (wait_loop, more, e) refl,
            refl,
            refl,
          )
          | inr some_left ↦
              let (w, ended, kept, killed) =
                wait_loop-ends fuel kill left (total + 1) (time + 1) last over
                  (shrinks fuel threads time last over more h) in
              (w, rw (wait_loop, more, some_left) ended, kept, killed)
        ]
      ]

  -- If all threads are terminated from some second on, `wait_on_threads` without a limit ends, within as
  -- many rounds as there are seconds until then and threads, and one; it returns no thread and has
  -- terminated none.
  pub wait_on_threads-ends :
      (threads : List ℕ) (kill : Bool) (time last : ℕ)
      → ((s n : ℕ) → last ≤ s → terminated s n ≡ true)
      → (w : Waited) × (wait_on_threads terminated
            ((last - time) + length threads + 1)
            threads
            none
            kill
            time
          ≡ some w)
        × (w.remaining ≡ [])
        × (w.killed ≡ [])
  unfolding wait_on_threads
  wait_on_threads-ends threads kill time last over =
      wait_loop-ends ((last - time) + length threads + 1) kill threads 0 time last over
        (omega arith)
