-- ===== src/Thread/Satellite/Busy.antt =====
-- How a throttled check-in is tried again.
use mathlib.Core.Option
use virt_who.Base.{
  ℕ, zero, suc, ◌+◌, ◌<◌, String, ◌≡◌, ap, subst, ◌∙◌, Bool, true, false, Option, some, List, ◌∷◌,
  arith,
}
use virt_who.Config.Value.{ℤ}
use virt_who.Report.{Report, ReportState, Hypervisor}
use virt_who.Thread.{
  Setting, Thread, Request, check_in, checked_in, handle_429, is_terminated, call_count, ask,
}
use virt_who.Thread.Jobs.Polling.{IsThrottled}
use virt_who.Thread.Satellite.{Attempt, sent, erred, given_up, manager_failure, check_in_report}

-- Whether an attempt is sent, the number of calls made so far, and the second.
abbrev pub result : Attempt → Bool × (ℕ × ℕ)
result (sent t) = (true, (call_count t.calls, t.time))
result (erred t) = (false, (call_count t.calls, t.time))
result (given_up t) = (false, (call_count t.calls, t.time))
result (manager_failure t) = (false, (call_count t.calls, t.time))

counted :
    (time : ℕ) {m n : ℕ}
    → m ≡ n
    → ◌≡◌ {A = Option (Bool × (ℕ × ℕ))} (some (true, (m, time))) (some (true, (n, time)))
counted time e = ap (λ (x : ℕ). some (true, (x, time))) e

module _ (setting : Setting) where
  -- A round changes nothing that `is_terminated` looks at.
  live_next :
      (t : Thread) (calls : List Request) (n : ℤ)
      → is_terminated setting t ≡ false
      → is_terminated setting (record t { calls = calls; interval_modifier = n }) ≡ false
  unfolding is_terminated
  live_next t calls n h = h

  -- When the next check-ins, `k` of them, are throttled, outside oneshot mode, and the one after them is
  -- accepted, and the thread is not terminated, the report is sent with these `k + 1` calls, and no
  -- second has passed: whatever the server says about when to retry, the thread does not wait.
  pub check_in_report_lem :
      (k : ℕ) (name : String) (report : Report) (hosts : List Hypervisor) (t : Thread)
      (job : Option String) (st : ReportState) (b : Bool)
      → setting.oneshot ≡ false
      → is_terminated setting t ≡ false
      → ((n : ℕ) → n < k → IsThrottled (setting.server (n + call_count t.calls) (check_in hosts)))
      → setting.server (k + call_count t.calls) (check_in hosts) ≡ checked_in job st b
      → Option.map result (check_in_report setting (suc k) name report hosts t)
        ≡ some (true, (k + 1 + call_count t.calls, t.time))
  unfolding check_in_report ask call_count handle_429 is_terminated
  check_in_report_lem zero name report hosts t job st b o live throttles a =
      let now : setting.server (call_count t.calls) (check_in hosts) ≡ checked_in job st b =
        subst (λ m. setting.server m (check_in hosts) ≡ checked_in job st b) (omega arith) a in
      rw (check_in_report, live, now) (counted t.time (omega arith))
  check_in_report_lem (suc k) name report hosts t job st b o live throttles a =
      let now : IsThrottled (setting.server (call_count t.calls) (check_in hosts)) =
        subst (λ m. IsThrottled (setting.server m (check_in hosts))) (omega arith)
          (throttles 0 (omega arith)) in
      let next : Thread = record t {
        calls = check_in hosts ∷ t.calls;
        interval_modifier = handle_429 now.retry_after;
      } in
      let again =
        check_in_report_lem k name report hosts next job st b o
          (live_next t (check_in hosts ∷ t.calls) (handle_429 now.retry_after) live)
          (λ n h.
            subst (λ m. IsThrottled (setting.server m (check_in hosts))) (omega arith)
              (throttles (suc n) (omega arith)))
          (subst (λ m. setting.server m (check_in hosts) ≡ checked_in job st b) (omega arith) a) in
      rw (check_in_report, live, now.answer, o) (again ∙ counted t.time (omega arith))
