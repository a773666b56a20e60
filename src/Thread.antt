-- ===== src/Thread.antt =====
-- `IntervalThread` and the state of `DestinationThread` of virtwho/virt/virt.py, with the clock and
-- the server that a thread sees.
pub mod Wait
pub mod Jobs
pub mod Gather
pub mod CheckIn
pub mod Send
pub mod Satellite
pub mod Run
use virt_who.Base.{
  ℕ, zero, suc, ◌+◌, ◌*◌, String, Bool, true, false, ◌||◌, Option, none, some, List, [], ◌∷◌, ◌++◌,
  leb, if◌then◌else◌,
}
use virt_who.Config.Value.{ℤ, pos, negsuc}
use virt_who.Base.Keys.{Keys}
use virt_who.Base.Dict.{Dict}
use virt_who.Report.{Report, ReportState, Hypervisor}

-- `Retry-After` of a throttled answer: none, a number of seconds, or what `int` does not read.
pub data RetryAfter : Type 0 where
  missing : RetryAfter
  seconds : ℤ → RetryAfter
  unreadable : RetryAfter

-- A call of the manager: the job of a report, a check-in, a list of guests, a heartbeat.
pub data Request : Type 0 where
  check_job : Option String → Request
  check_in : List Hypervisor → Request
  send_guests : Report → Request
  heartbeat : Request

-- What the manager answers: the state of a job, an accepted check-in with the job and state of the
-- report and whether the result is true as a test, success otherwise, or one of its exceptions.
pub data Answer : Type 0 where
  job_state : ReportState → Answer
  checked_in : Option String → ReportState → Bool → Answer
  done : Answer
  throttled : RetryAfter → Answer
  manager_error : Answer
  fatal_error : Answer

-- What does not change while a thread runs: its options, the answer to each call by the number of
-- calls before it, the second from which the program is to terminate, the report that the datastore
-- has under a key at a second, the hash of a report, and whether its configuration has an owner.
pub record Setting : Type 0 where
  pub name : String
  pub oneshot : Bool
  pub status : Bool
  pub print : Bool
  pub interval : ℕ
  pub server : ℕ → Request → Answer
  pub terminate_at : Option ℕ
  pub source : ℕ → String → Option Report
  pub report_hash : Report → ℕ
  pub report_owner : Report → Bool

-- The state of a destination thread, the seconds that have passed, and the calls that it has made. A
-- submitted report is an object that the sources of one batch share: the dict has its number, and
-- `batches` the report with that number. `has_owner` says whether the thread's configuration has one.
pub record Thread : Type 0 where
  pub time : ℕ
  pub calls : List Request
  pub stopped : Bool
  pub is_initial_run : Bool
  pub interval_modifier : ℤ
  pub source_keys : Keys
  pub last_report_for_source : Dict ℕ
  pub submitted_report_and_hash_for_source : Dict (ℕ × ℕ)
  pub batches : ℕ → Report
  pub next_batch : ℕ
  pub has_owner : Bool

abbrev pub minimum_job_poll_interval : ℕ
minimum_job_poll_interval = 15

-- `handle_429(retry_after, number_of_failures)`
unfoldable pub handle_429 : RetryAfter → ℤ
handle_429 missing = pos (minimum_job_poll_interval * 2)
handle_429 (seconds n) = n
handle_429 unreadable = pos (minimum_job_poll_interval * 2)

-- The rounds of `wait(wait_time)`, of a second each.
unfoldable pub seconds_of : ℤ → ℕ
seconds_of (pos n) = n
seconds_of (negsuc n) = 0

unfoldable pub call_count : List Request → ℕ
call_count [] = 0
call_count (r ∷ rs) = call_count rs + 1

module _ (setting : Setting) where
  -- `is_terminated()`
  unfoldable pub is_terminated : Thread → Bool
  is_terminated t = t.stopped || elim setting.terminate_at [ none ↦ false | some s ↦ leb s t.time ]

  -- `stop()`
  abbrev pub stop : Thread → Thread
  stop t = record t { stopped = true }

  -- `wait(wait_time)`: a second in each round.
  unfoldable pub wait : ℕ → Thread → Thread
  wait zero t = t
  wait (suc n) t =
      let rest = wait n (record t { time = t.time + 1 }) in if is_terminated t then t else rest

  -- A call of the manager.
  unfoldable pub ask : Request → Thread → Answer × Thread
  unfolding call_count
  ask r t = (setting.server (call_count t.calls) r, record t { calls = r ∷ t.calls })
