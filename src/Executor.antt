-- ===== src/Executor.antt =====
-- `Executor.wait_on_threads` of virtwho/executor.py.
pub mod Waiting
pub mod Ends
pub mod Oneshot
pub mod Tests
use virt_who.Base.{
  ℕ, zero, suc, ◌+◌, Bool, true, false, not, ◌&&◌, Option, none, some, List, [], ◌∷◌, is_empty, ltb,
  if◌then◌else◌,
}

-- What the loop sees of threads, which have a number each: whether one is terminated at a second.
abbrev pub Terminated : Type 0
Terminated = ℕ → ℕ → Bool

-- `for thread in threads: if thread.is_terminated(): threads.remove(thread)`, for threads that are all
-- different. The loop goes by the position in the list that it removes from, so a removal makes it
-- pass over the next thread.
unfoldable pub sweep : (ℕ → Bool) → List ℕ → List ℕ
sweep is_terminated [] = []
sweep is_terminated (x ∷ []) = if is_terminated x then [] else x ∷ []
sweep is_terminated (x ∷ y ∷ threads) =
    let passed_over = sweep is_terminated threads in
    let next = sweep is_terminated (y ∷ threads) in
    if is_terminated x then y ∷ passed_over else x ∷ next

-- What a wait comes to: the threads that it returns, the threads that it has terminated, the second.
pub record Waited : Type 0 where
  pub remaining : List ℕ
  pub killed : List ℕ
  pub time : ℕ

module _ (terminated : Terminated) where
  -- `total_waited > max_wait_time`
  abbrev pub is_over : Option ℕ → ℕ → Bool
  is_over none total_waited = false
  is_over (some limit) total_waited = ltb limit total_waited

  -- The loop, on fuel, from a second on.
  unfoldable pub wait_loop : ℕ → Option ℕ → Bool → List ℕ → ℕ → ℕ → Option Waited
  wait_loop zero max_wait_time kill_on_timeout threads total_waited time = none
  wait_loop (suc fuel) max_wait_time kill_on_timeout threads total_waited time =
      let left = sweep (terminated time) threads in
      let rest = wait_loop fuel max_wait_time kill_on_timeout left (total_waited + 1) (time + 1) in
      if is_empty threads
      then some (record { remaining = []; killed = []; time = time })
      else if is_over max_wait_time total_waited
      then some (
          if kill_on_timeout
          then record { remaining = []; killed = threads; time = time }
          else record { remaining = threads; killed = []; time = time })
      else if is_empty left
      then some (record { remaining = []; killed = []; time = time })
      else rest

  -- `wait_on_threads(threads, max_wait_time, kill_on_timeout)`
  unfoldable pub wait_on_threads : ℕ → List ℕ → Option ℕ → Bool → ℕ → Option Waited
  unfolding wait_loop
  wait_on_threads fuel threads max_wait_time kill_on_timeout time =
      wait_loop fuel max_wait_time kill_on_timeout threads 0 time
