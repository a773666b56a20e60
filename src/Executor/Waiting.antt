-- ===== src/Executor/Waiting.antt =====
-- What becomes of the threads that `wait_on_threads` waits for.
use virt_who.Base.{
  ℕ, zero, suc, ◌+◌, ◌≤◌, ◌≡◌, refl, subst, ◌∙◌, Bool, true, false, ◌⊎◌, inl, inr, Bool-cases,
  Option, none, some, List, [], ◌∷◌, is_empty, nat_eq, nat_eq_iff, any, arith,
}
use virt_who.Executor.{Terminated, sweep, Waited, is_over, wait_loop, wait_on_threads}

-- Whether a thread is in a list.
abbrev pub listed : List ℕ → ℕ → Bool
listed threads n = any (λ m. nat_eq m n) threads

-- A sweep keeps every thread that is not terminated.
listed-sweep :
    (is_terminated : ℕ → Bool) (threads : List ℕ) (n : ℕ)
    → is_terminated n ≡ false
    → listed (sweep is_terminated threads) n ≡ listed threads n
unfolding sweep
listed-sweep is_terminated [] n live = refl
listed-sweep is_terminated (x ∷ []) n live = ground (arith, nat_eq_iff x n)
listed-sweep is_terminated (x ∷ y ∷ threads) n live = ground (
  arith,
  listed-sweep is_terminated threads n live,
  listed-sweep is_terminated (y ∷ threads) n live,
  nat_eq_iff x n,
)

module _ (terminated : Terminated) where
  -- A thread that was seen to be terminated between two seconds.
  pub record Seen (n from to : ℕ) : Type 0 where
    pub second : ℕ
    pub over : terminated second n ≡ true
    pub after : from ≤ second
    pub before : second ≤ to

  -- What has become of a thread in a wait that has ended.
  abbrev pub AccountedFor : ℕ → ℕ → Waited → Type 0
  AccountedFor n time w =
      (listed w.remaining n ≡ true) ⊎ ((listed w.killed n ≡ true) ⊎ Seen n time w.time)

  abbrev IfEnded : ℕ → ℕ → Option Waited → Type 0
  IfEnded n time none = Unit
  IfEnded n time (some w) = (AccountedFor n time w) × (time ≤ w.time)

  later : (n time : ℕ) (o : Option Waited) → IfEnded n (time + 1) o → IfEnded n time o
  later n time none h = tt
  later n time (some w) (inl kept, h) = (inl kept, omega arith)
  later n time (some w) (inr (inl killed), h) = (inr (inl killed), omega arith)
  later n time (some w) (inr (inr seen), h) = (
    inr (
        inr (record {
          second = seen.second;
          over = seen.over;
          after = (let a = seen.after in omega arith);
          before = seen.before;
        })),
    omega arith,
  )

  abbrev NotBefore : ℕ → Option Waited → Type 0
  NotBefore time none = Unit
  NotBefore time (some w) = time ≤ w.time

  not_before : (time : ℕ) (o : Option Waited) → NotBefore (time + 1) o → NotBefore time o
  not_before time none h = tt
  not_before time (some w) h = omega arith

  wait_loop-NotBefore :
      (fuel : ℕ) (limit : Option ℕ) (kill : Bool) (threads : List ℕ) (total time : ℕ)
      → NotBefore time (wait_loop terminated fuel limit kill threads total time)
  unfolding wait_loop
  wait_loop-NotBefore zero limit kill threads total time = tt
  wait_loop-NotBefore (suc fuel) limit kill threads total time =
      let left = sweep (terminated time) threads in
      let ih =
        not_before time (wait_loop terminated fuel limit kill left (total + 1) (time + 1))
          (wait_loop-NotBefore fuel limit kill left (total + 1) (time + 1)) in
      elim (Bool-cases (is_empty threads)) [
        | inl e ↦ rw (wait_loop, e) (omega arith)
        | inr more ↦ elim (Bool-cases (is_over terminated limit total)) [
          | inl late ↦ elim (Bool-cases kill) [
            | inl k ↦ rw (wait_loop, more, late, k) (omega arith)
            | inr k ↦ rw (wait_loop, more, late, k) (omega arith)
          ]
          | inr early ↦ elim (Bool-cases (is_empty left)) [
            | inl e ↦ rw (wait_loop, more, early, e) (omega arith)
            | inr some_left ↦ rw (wait_loop, more, early, some_left) ih
          ]
        ]
      ]

  not-is_empty : (threads : List ℕ) (n : ℕ) → listed threads n ≡ true → is_empty threads ≡ false
  not-is_empty [] n h = cc
  not-is_empty (x ∷ threads) n h = refl

  seen_now :
      (n time : ℕ) (o : Option Waited)
      → terminated time n ≡ true
      → NotBefore time o
      → IfEnded n time o
  seen_now n time none over h = tt
  seen_now n time (some w) over h =
      (inr (inr (record { second = time; over = over; after = omega arith; before = h })), h)

  wait_loop-IfEnded :
      (fuel : ℕ) (limit : Option ℕ) (kill : Bool) (threads : List ℕ) (total time n : ℕ)
      → listed threads n ≡ true
      → IfEnded n time (wait_loop terminated fuel limit kill threads total time)
  unfolding wait_loop
  wait_loop-IfEnded zero limit kill threads total time n h = tt
  wait_loop-IfEnded (suc fuel) limit kill threads total time n h =
      let left = sweep (terminated time) threads in
      elim (Bool-cases (terminated time n)) [
        | inl over ↦ elim (Bool-cases (is_over terminated limit total)) [
          | inl late ↦ timed_out fuel limit kill threads total time n h late
          | inr early ↦
              seen_now n time (wait_loop terminated (suc fuel) limit kill threads total time) over
                (wait_loop-NotBefore (suc fuel) limit kill threads total time)
        ]
        | inr live ↦
            let still : listed left n ≡ true = listed-sweep (terminated time) threads n live ∙ h in
            elim (Bool-cases (is_over terminated limit total)) [
              | inl late ↦ timed_out fuel limit kill threads total time n h late
              | inr early ↦
                  rw (wait_loop, not-is_empty threads n h, early, not-is_empty left n still)
                    (later n time (wait_loop terminated fuel limit kill left (total + 1) (time + 1))
                      (wait_loop-IfEnded fuel limit kill left (total + 1) (time + 1) n still))
            ]
      ]
    where
      timed_out :
          (fuel : ℕ) (limit : Option ℕ) (kill : Bool) (threads : List ℕ) (total time n : ℕ)
          → listed threads n ≡ true
          → is_over terminated limit total ≡ true
          → IfEnded n time (wait_loop terminated (suc fuel) limit kill threads total time)
      timed_out fuel limit kill threads total time n h late = elim (Bool-cases kill) [
        | inl k ↦ rw (wait_loop, not-is_empty threads n h, late, k) (inr (inl h), omega arith)
        | inr k ↦ rw (wait_loop, not-is_empty threads n h, late, k) (inl h, omega arith)
      ]

  -- When `wait_on_threads` has ended, each of its threads is returned, or was terminated by it, or was
  -- seen to be terminated while it waited, whatever the limit is.
  pub wait_on_threads-AccountedFor :
      (fuel : ℕ) (threads : List ℕ) (limit : Option ℕ) (kill : Bool) (time n : ℕ) (w : Waited)
      → listed threads n ≡ true
      → wait_on_threads terminated fuel threads limit kill time ≡ some w
      → AccountedFor n time w
  unfolding wait_on_threads
  wait_on_threads-AccountedFor fuel threads limit kill time n w h e =
      (subst (IfEnded n time) e (wait_loop-IfEnded fuel limit kill threads 0 time n h)).0
