-- ===== src/Manager/State.antt =====
-- `check_report_state`: what has become of the job of a report.
pub mod Polled
use virt_who.Base.Method.{◌>>=◌, return, raise, change}
use virt_who.Base.{
  ℕ, String, Bool, true, false, Option, none, some, List, [], ◌∷◌, ◌++◌, map, length, if◌then◌else◌,
  key_error,
}
use virt_who.Base.Dict.{Dict, lookup, get_or}
use virt_who.Config.Section.{Section}
use virt_who.Report.{Report, ReportState, created, processing, finished, failed, canceled}
use virt_who.Manager.{
  Fault, bad_status_line, rate_limit_exceeded, gone, connection_exception, crash, Failure,
  interrupted, failed_with_code, throttle, escaped, Call, get_job, Job, ResultData, no_data,
  error_text, details, Rhsm, Session, Action, issue, rescue,
}
use virt_who.Manager.Connect.{connect}
use virt_who.Manager.Calls.{connection_failure}

-- `STATE_MAPPING`
abbrev pub state_mapping : Dict ReportState
state_mapping =
    ("FINISHED", finished)
    ∷ ("CANCELED", canceled)
    ∷ ("FAILED", failed)
    ∷ ("RUNNING", processing)
    ∷ ("WAITING", processing)
    ∷ ("CREATED", processing)
    ∷ []

unfoldable pub state_of_job : String → ReportState
state_of_job text = get_or (lookup text state_mapping) failed

-- `str(report.job_id)`
abbrev pub job_text : Option String → String
job_text none = "None"
job_text (some id) = id

-- The handlers around `getJob`: a `GoneException` is a connection exception with a code here.
unfoldable pub job_failure : Fault → Failure
job_failure bad_status_line = interrupted
job_failure (rate_limit_exceeded retry_after) = throttle retry_after
job_failure (gone code text) = failed_with_code code text
job_failure (connection_exception code text) = connection_failure code text
job_failure (crash e) = escaped (crash e)

-- What is logged at the end.
pub data JobMessage : Type 0 where
  not_finished without_data updated : JobMessage
  reported_error failed_update : String → JobMessage
  unchanged_count : ℕ → JobMessage

unfoldable pub job_messages : ReportState → ResultData → List JobMessage
job_messages created data' = not_finished ∷ []
job_messages processing data' = not_finished ∷ []
job_messages st no_data = without_data ∷ []
job_messages st (error_text text) = reported_error text ∷ []
job_messages st (details failures unchanged) =
    map failed_update failures ++ (unchanged_count unchanged ∷ updated ∷ [])

module _ (rhsm : Rhsm) where
  abbrev set_job_status : Bool → String → Action Unit
  set_job_status status_call text =
      change (λ s. if status_call then record s { last_job_status = some text } else s)

  abbrev state_of_reply : Job → Action String
  state_of_reply job = elim job.state [
    | none ↦ raise (escaped (crash key_error))
    | some text ↦ return text
  ]

  -- `check_report_state(report, status_call)`, with what it logs.
  unfoldable pub check_report_state : {M : Type 0} → Section M → Bool → Action (List JobMessage)
  unfolding job_failure state_of_job job_messages
  check_report_state config status_call s =
      (do
        let job_id = job_text s.report.job_id
        _ ← connect rhsm config
        _ ← set_job_status status_call "UNKNOWN"
        job ← rescue job_failure (issue (get_job job_id) rhsm.answer_job)
        text ← state_of_reply job
        let st = state_of_job text
        _ ← set_job_status status_call text
        _ ← change (λ x. record x { report = record x.report { state = st } })
        return (job_messages st job.result_data))
        s
