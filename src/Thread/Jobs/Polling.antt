-- ===== src/Thread/Jobs/Polling.antt =====
-- When `check_report_status` ends, and when it does not.
use mathlib.Core.Option
use virt_who.Base.{
  ℕ, zero, suc, ◌+◌, ◌<◌, ◌≡◌, refl, ap, subst, ◌∙◌, Bool, true, false, Option, none, some, ◌∷◌,
  arith,
}
use virt_who.Config.Value.{pos}
use virt_who.Report.{Report, ReportState, created}
use virt_who.Thread.{
  Setting, Thread, check_job, Answer, job_state, throttled, RetryAfter, handle_429, seconds_of,
  wait, call_count, ask,
}
use virt_who.Thread.Wait.{wait_lem}
use virt_who.Thread.Jobs.{
  continues, poll_wait, handle_answer, check_round, check_loop, check_report_status,
}

-- An answer of 429.
pub record IsThrottled (a : Answer) : Type 0 where
  pub retry_after : RetryAfter
  pub answer : a ≡ throttled retry_after

-- What a check gives: the report, and the number of calls made so far.
abbrev pub outcome : Report × Thread → Report × ℕ
outcome (r, t) = (r, call_count t.calls)

continues-created : (first : Bool) (st : ReportState) → st ≡ created → continues first st ≡ true
unfolding continues
continues-created first st e = rw e refl

module _ (setting : Setting) where
  calls-wait : (n : ℕ) (t : Thread) → (wait setting n t).calls ≡ t.calls
  calls-wait n t = ap (λ (x : Thread). x.calls) (wait_lem setting n t)

  calls-poll_wait :
      (first status_call : Bool) (t : Thread)
      → (poll_wait setting first status_call t).calls ≡ t.calls
  unfolding poll_wait
  calls-poll_wait first status_call t = ground (
    arith,
    calls-wait (seconds_of t.interval_modifier) (record t { interval_modifier = pos 0 }),
    calls-wait 15 t,
    calls-wait 30 t,
  )

  -- The thread after a round's call.
  abbrev called : Bool → Bool → Report → Thread → Thread
  called first status_call r t =
      let p = poll_wait setting first status_call t in
      record p { calls = check_job r.job_id ∷ p.calls }

  check_round_lem :
      (first status_call : Bool) (r : Report) (t : Thread)
      → check_round setting first status_call r t
        ≡ handle_answer setting
            (setting.server (call_count t.calls) (check_job r.job_id))
            r
            (called first status_call r t)
  unfolding check_round ask
  check_round_lem first status_call r t = rw (calls-poll_wait first status_call t)

  -- A round whose call is throttled goes on with the next one.
  check_loop-throttled :
      (fuel : ℕ) (first status_call : Bool) (r : Report) (t : Thread) (retry_after : RetryAfter)
      → setting.oneshot ≡ false
      → r.state ≡ created
      → setting.server (call_count t.calls) (check_job r.job_id) ≡ throttled retry_after
      → check_loop setting (suc fuel) first status_call r t
        ≡ check_loop setting fuel false status_call r
            (record (called first status_call r t) { interval_modifier = handle_429 retry_after })
  unfolding check_loop handle_answer
  check_loop-throttled fuel first status_call r t retry_after o e a =
      rw
        (check_loop, continues-created first r.state e, check_round_lem first status_call r t, a, o)
        refl

  -- A round that learns a state goes on with it.
  check_loop-learnt :
      (fuel : ℕ) (first status_call : Bool) (r : Report) (t : Thread) (st : ReportState)
      → r.state ≡ created
      → setting.server (call_count t.calls) (check_job r.job_id) ≡ job_state st
      → check_loop setting (suc fuel) first status_call r t
        ≡ check_loop setting fuel false status_call
            (record r { state = st })
            (called first status_call r t)
  unfolding check_loop handle_answer
  check_loop-learnt fuel first status_call r t st e a =
      rw (check_loop, continues-created first r.state e, check_round_lem first status_call r t, a)
        refl

  call_count-called :
      (first status_call : Bool) (r : Report) (t : Thread)
      → call_count (called first status_call r t).calls ≡ call_count t.calls + 1
  unfolding call_count
  call_count-called first status_call r t = rw (calls-poll_wait first status_call t) refl

  check_loop-never :
      (fuel : ℕ) (first status_call : Bool) (r : Report) (t : Thread)
      → setting.oneshot ≡ false
      → r.state ≡ created
      → ((n : ℕ) → IsThrottled (setting.server n (check_job r.job_id)))
      → check_loop setting fuel first status_call r t ≡ none
  unfolding check_loop
  check_loop-never zero first status_call r t o e throttles = refl
  check_loop-never (suc fuel) first status_call r t o e throttles =
      let asked = throttles (call_count t.calls) in
      let next = record (called first status_call r t) {
        interval_modifier = handle_429 asked.retry_after;
      } in
      check_loop-throttled fuel first status_call r t asked.retry_after o e asked.answer
      ∙ check_loop-never fuel false status_call r next o e throttles

  check_loop-ended :
      (fuel : ℕ) (status_call : Bool) (r : Report) (t : Thread)
      → continues false r.state ≡ false
      → check_loop setting (suc fuel) false status_call r t ≡ some (r, t)
  unfolding check_loop
  check_loop-ended fuel status_call r t ends = rw (check_loop, ends) refl

  counted :
      (r : Report) (st : ReportState) {m n : ℕ}
      → m ≡ n
      → ◌≡◌ {A = Option (Report × ℕ)}
          (some (record r { state = st }, m))
          (some (record r { state = st }, n))
  counted r st e = ap (λ (x : ℕ). some (record r { state = st }, x)) e

  check_loop-answered :
      (k : ℕ) (first status_call : Bool) (r : Report) (t : Thread) (st : ReportState)
      → setting.oneshot ≡ false
      → r.state ≡ created
      → ((n : ℕ)
          → n < k
          → IsThrottled (setting.server (n + call_count t.calls) (check_job r.job_id)))
      → setting.server (k + call_count t.calls) (check_job r.job_id) ≡ job_state st
      → continues false st ≡ false
      → Option.map outcome (check_loop setting (suc (suc k)) first status_call r t)
        ≡ some (record r { state = st }, k + 1 + call_count t.calls)
  check_loop-answered zero first status_call r t st o e throttles a ends =
      ap (Option.map outcome) (
        check_loop-learnt 1 first status_call r t st e
          (subst (λ m. (setting.server m (check_job r.job_id)) ≡ job_state st) (omega arith) a)
        ∙ check_loop-ended 0 status_call (record r { state = st }) (called first status_call r t)
            ends)
      ∙ counted r st (call_count-called first status_call r t ∙ omega arith)
  check_loop-answered (suc k) first status_call r t st o e throttles a ends =
      let now : IsThrottled (setting.server (call_count t.calls) (check_job r.job_id)) =
        subst (λ m. IsThrottled (setting.server m (check_job r.job_id))) (omega arith)
          (throttles 0 (omega arith)) in
      let next = record (called first status_call r t) {
        interval_modifier = handle_429 now.retry_after;
      } in
      let one = call_count-called first status_call r t in
      ap (Option.map outcome)
        (check_loop-throttled (suc (suc k)) first status_call r t now.retry_after o e now.answer)
      ∙ check_loop-answered k false status_call r next st o e
          (λ n h.
            subst (λ m. IsThrottled (setting.server m (check_job r.job_id))) (omega (arith, one))
              (throttles (suc n) (omega arith)))
          (subst (λ m. (setting.server m (check_job r.job_id)) ≡ job_state st) (omega (arith, one))
            a)
          ends
      ∙ counted r st (omega (arith, one))

  -- While the server throttles every call for the job of a report that is not known to be under
  -- way, `check_report_status` outside oneshot mode does not end, however many tests it is given:
  -- also when the thread was stopped, or the program is to terminate.
  pub check_report_status-throttled :
      (fuel : ℕ) (status_call : Bool) (r : Report) (t : Thread)
      → setting.oneshot ≡ false
      → r.state ≡ created
      → ((n : ℕ) → IsThrottled (setting.server n (check_job r.job_id)))
      → check_report_status setting fuel status_call r t ≡ none
  unfolding check_report_status
  check_report_status-throttled fuel status_call r t o e throttles =
      check_loop-never fuel true status_call r t o e throttles

  -- When the next calls, `k` of them, are throttled, outside oneshot mode, and the call after them
  -- answers with a state of the job that is not `created`, `check_report_status` on a report that is
  -- `created` ends within `k + 2` tests, has made those `k + 1` calls and no other, and the report
  -- has that state.
  pub check_report_status_lem :
      (k : ℕ) (status_call : Bool) (r : Report) (t : Thread) (st : ReportState)
      → setting.oneshot ≡ false
      → r.state ≡ created
      → ((n : ℕ)
          → n < k
          → IsThrottled (setting.server (n + call_count t.calls) (check_job r.job_id)))
      → setting.server (k + call_count t.calls) (check_job r.job_id) ≡ job_state st
      → continues false st ≡ false
      → Option.map outcome (check_report_status setting (suc (suc k)) status_call r t)
        ≡ some (record r { state = st }, k + 1 + call_count t.calls)
  unfolding check_report_status
  check_report_status_lem k status_call r t st o e throttles a ends =
      check_loop-answered k true status_call r t st o e throttles a ends
