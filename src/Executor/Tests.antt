-- ===== src/Executor/Tests.antt =====
-- The theorems on `wait_on_threads` of virtwho/executor.py at concrete threads.
use virt_who.Base.{ℕ, ◌≡◌, refl, false, none, some, List, [], ◌∷◌, leb, arith}
use virt_who.Executor.{Terminated, sweep, Waited, wait_loop, wait_on_threads}
use virt_who.Executor.Waiting.{AccountedFor, wait_on_threads-AccountedFor}
use virt_who.Executor.Ends.{wait_on_threads-ends}

-- Threads that are terminated from the second on.
abbrev from_one : Terminated
from_one s n = leb 1 s

abbrev two_threads : List ℕ
two_threads = 7 ∷ 8 ∷ []

-- The second thread is passed over in the sweep of the second round, and is found in the third.
abbrev waited : Waited
waited = record { remaining = []; killed = []; time = 2 }

two_threads-waited : wait_on_threads from_one 5 two_threads none false 0 ≡ some waited
unfolding wait_on_threads wait_loop sweep
two_threads-waited = refl

wait_on_threads-AccountedFor_example : AccountedFor from_one 8 0 waited
wait_on_threads-AccountedFor_example =
    wait_on_threads-AccountedFor from_one 5 two_threads none false 0 8 waited refl
      two_threads-waited

wait_on_threads-ends_example :
    (w : Waited) × (wait_on_threads from_one 4 two_threads none false 0 ≡ some w)
    × (w.remaining ≡ [])
    × (w.killed ≡ [])
wait_on_threads-ends_example =
    wait_on_threads-ends from_one two_threads false 0 1 (λ s n h. ground arith)
