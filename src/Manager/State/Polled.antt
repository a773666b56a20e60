-- ===== src/Manager/State/Polled.antt =====
-- A destination thread that polls a job through the manager.
use virt_who.Base.Method.{failure, success}
use mathlib.Core.Option
use virt_who.Base.{
  ℕ, suc, ◌+◌, ◌<◌, String, ◌≡◌, Bool, false, Option, none, some, List, [], ◌∷◌, arith, string_eq,
  Bool-cases,
}
use virt_who.Base.Dict.{lookup}
use virt_who.Config.Section.{Section}
use virt_who.Report.{Report, created}
use virt_who.Thread.{
  Setting, Thread, RetryAfter, check_job, Answer, job_state, throttled, manager_error, fatal_error,
  call_count,
}
use virt_who.Thread.Jobs.{continues, check_report_status}
use virt_who.Thread.Jobs.Polling.{outcome, check_report_status_lem}
use virt_who.Manager.{
  rate_limit_exceeded, fault, reply, Failure, throttle, unregistered, escaped, Call, get_job, Job,
  Rhsm, Session, Ending,
}
use virt_who.Manager.Connect.{connect}
use virt_who.Manager.State.{JobMessage, state_of_job, job_failure, job_text, check_report_state}

-- The manager's exceptions as the thread tells them apart; it handles no others.
abbrev pub answer_of_failure : Failure → Option Answer
answer_of_failure (throttle retry_after) = some (throttled retry_after)
answer_of_failure unregistered = some fatal_error
answer_of_failure (escaped f) = none
answer_of_failure _ = some manager_error

abbrev pub answer_of : Ending (List JobMessage) × Session → Option Answer
answer_of (failure e, s) = answer_of_failure e
answer_of (success messages, s) = some (job_state s.report.state)

state_of_job-continues : (text : String) → continues false (state_of_job text) ≡ false
unfolding continues state_of_job lookup
state_of_job-continues text = ground arith

module _ {M : Type 0} (config : Section M) (status_call : Bool) where
  abbrev pub Connects : Rhsm → Type 0
  Connects rhsm = (s : Session) → (connect rhsm config s).0 ≡ success tt

  -- The server does not take the question for a job, or has the job in a state.
  pub record IsLimited (rhsm : Rhsm) : Type 0 where
    pub connects : Connects rhsm
    pub retry_after : RetryAfter
    pub limited :
        (calls : List Call) → rhsm.answer_job calls ≡ fault (rate_limit_exceeded retry_after)

  pub record IsInState (rhsm : Rhsm) (text : String) : Type 0 where
    pub connects : Connects rhsm
    pub job : Job
    pub named : job.state ≡ some text
    pub answered : (calls : List Call) → rhsm.answer_job calls ≡ reply job

  pub limited_lem :
      (rhsm : Rhsm) (s : Session) (limit : IsLimited rhsm)
      → answer_of (check_report_state rhsm config status_call s)
        ≡ some (throttled limit.retry_after)
  unfolding check_report_state job_failure
  limited_lem rhsm s limit = ground (
    arith,
    Bool-cases status_call,
    limit.connects s,
    limit.limited (get_job (job_text s.report.job_id) ∷ (connect rhsm config s).1.calls),
  )

  pub in_state_lem :
      (rhsm : Rhsm) (s : Session) (text : String)
      → IsInState rhsm text
      → answer_of (check_report_state rhsm config status_call s)
        ≡ some (job_state (state_of_job text))
  unfolding check_report_state
  in_state_lem rhsm s text known = ground (
    arith,
    Bool-cases status_call,
    known.connects s,
    known.answered (get_job (job_text s.report.job_id) ∷ (connect rhsm config s).1.calls),
    known.named,
  )

  module _ (rhsm : ℕ → Rhsm) (setting : Setting) where
    -- The thread's server is the manager: the n-th call finds rhsm as it then is.
    abbrev pub Serves : Type 0
    Serves =
        (n : ℕ) (s : Session)
        → answer_of (check_report_state (rhsm n) config status_call s)
          ≡ some (setting.server n (check_job s.report.job_id))

    abbrev asking : Report → Session
    asking r = record {
      calls = [];
      connection = none;
      cert_uuid = none;
      report = r;
      last_job_status = none;
    }

    server_lem :
        (n : ℕ) (r : Report) (a : Answer)
        → Serves
        → answer_of (check_report_state (rhsm n) config status_call (asking r)) ≡ some a
        → setting.server n (check_job r.job_id) ≡ a
    server_lem n r a serves e = ground (arith, serves n (asking r))

    -- A thread that has the manager for its server, outside oneshot mode, polls the job of a report
    -- that is `created`: if the next `k` questions are answered with 429 and the one after them with a
    -- text, whichever it is, the poll ends within `k + 2` tests and `k + 1` calls, and the report
    -- has the state that STATE_MAPPING gives for the text, or has failed if it gives none.
    pub check_report_status-manager :
        (k : ℕ) (r : Report) (t : Thread) (text : String)
        → Serves
        → setting.oneshot ≡ false
        → r.state ≡ created
        → ((n : ℕ) → n < k → IsLimited (rhsm (n + call_count t.calls)))
        → IsInState (rhsm (k + call_count t.calls)) text
        → Option.map outcome (check_report_status setting (suc (suc k)) status_call r t)
          ≡ some (record r { state = state_of_job text }, k + 1 + call_count t.calls)
    check_report_status-manager k r t text serves o e limits known =
        check_report_status_lem setting k status_call r t (state_of_job text) o e
          (λ n h.
            let limit = limits n h in
            record {
              retry_after = limit.retry_after;
              answer =
                  server_lem (n + call_count t.calls) r _ serves
                    (limited_lem (rhsm (n + call_count t.calls)) (asking r) limit);
            })
          (server_lem (k + call_count t.calls) r _ serves
            (in_state_lem (rhsm (k + call_count t.calls)) (asking r) text known))
          (state_of_job-continues text)
