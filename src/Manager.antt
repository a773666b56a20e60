-- ===== src/Manager.antt =====
-- virtwho/manager/subscriptionmanager/subscriptionmanager.py: the manager that talks to a
-- subscription manager through the package rhsm, with the exceptions of both.
pub mod Mapping
pub mod Arguments
pub mod Connect
pub mod Calls
pub mod State
pub mod Keeps
pub mod Satellite
mod Tests
use virt_who.Base.{
  ℕ, String, Bool, true, false, Option, none, some, List, [], ◌∷◌, Exception, Result, ok, raised,
}
use virt_who.Base.Dict.{Dict}
use virt_who.Base.Method.{Finish, failure, success, Method, return, raise}
use virt_who.Config.Value.{Value}
use virt_who.Report.{Report, Guest, GuestDict}
use virt_who.Thread.{RetryAfter}
use virt_who.Manager.Mapping.{HostMapping}

-- The exceptions that reach the manager: `BadStatusLine`, those of rhsm, which derive from its
-- `ConnectionException` and of which the last may have a code, and Python's own.
pub data Fault : Type 0 where
  bad_status_line : Fault
  rate_limit_exceeded : RetryAfter → Fault
  gone : ℕ → String → Fault
  connection_exception : Option ℕ → String → Fault
  crash : Exception → Fault

-- What the manager raises: `ManagerError` by its message, `ManagerThrottleError`, the fatal error of a
-- system that is not registered, or what it does not handle.
pub data Failure : Type 0 where
  interrupted : Failure
  consumer_gone : Failure
  failed_with_code : ℕ → String → Failure
  failed : String → Failure
  no_server_status : Failure
  certificate_unreadable : Failure
  throttle : RetryAfter → Failure
  unregistered : Failure
  escaped : Fault → Failure

pub data Answered (T : Type 0) : Type 0 where
  fault : Fault → Answered T
  reply : T → Answered T

-- The calls of rhsm. A check-in has an `options` argument or does without.
pub data Call : Type 0 where
  open_connection : Dict Value → Call
  ping : Call
  has_capability : Call
  hypervisor_check_in : Value → HostMapping → Option (Option (Dict Value)) → Call
  get_job : String → Call
  update_consumer : String → List GuestDict → Option String → Call
  hypervisor_heartbeat : Value → Option (Dict Value) → Call

-- `result` of a check-in: its `'id'`, and whether it is true as a test.
pub record CheckInResult : Type 0 where
  pub id : Option String
  pub is_true : Bool

-- `'resultData'` of a job: missing or empty, a text, or the failed updates and the number of the
-- unchanged mappings.
pub data ResultData : Type 0 where
  no_data : ResultData
  error_text : String → ResultData
  details : List String → ℕ → ResultData

pub record Job : Type 0 where
  pub state : Option String
  pub result_data : ResultData

-- What the manager uses of rhsm and of the machine: the server section of rhsm.conf, the files of the
-- consumer certificate and what is in it, and the answer to each call by the calls up to it.
pub record Rhsm : Type 0 where
  pub server_option : String → String
  pub cert_file : String
  pub key_file : String
  pub cert_readable : Bool
  pub common_name : Option String
  pub correlation_id : String
  pub answer_open : List Call → Answered Unit
  pub answer_ping : List Call → Answered Bool
  pub answer_capability : List Call → Answered Bool
  pub answer_check_in : List Call → Answered CheckInResult
  pub answer_job : List Call → Answered Job
  pub answer_update : List Call → Answered Unit
  pub answer_heartbeat : List Call → Answered Bool

-- The state: the calls so far with the last one first, the arguments of the connection, the identity
-- in the certificate once it was read, and the report that is worked on with its `last_job_status`.
pub record Session : Type 0 where
  pub calls : List Call
  pub connection : Option (Dict Value)
  pub cert_uuid : Option String
  pub report : Report
  pub last_job_status : Option String

abbrev pub Ending : Type 0 → Type 0
Ending T = Finish Failure T

abbrev pub Action : Type 0 → Type 0
Action T = Method Session Failure T

abbrev pub from_result : {T : Type 0} → Result T → Action T
from_result (ok t) = return t
from_result (raised e) = raise (escaped (crash e))

-- A call of rhsm.
abbrev pub issue : {T : Type 0} → Call → (List Call → Answered T) → Action T
issue c answer s =
    let s' = record s { calls = c ∷ s.calls } in
    elim (answer (c ∷ s.calls)) [ fault f ↦ (failure (escaped f), s') | reply t ↦ (success t, s') ]

-- `try` around a block, with what the handlers make of an exception that is not yet the manager's.
abbrev pub handled : (Fault → Failure) → Failure → Failure
handled handler (escaped f) = handler f
handled handler e = e

abbrev pub rescue : {T : Type 0} → (Fault → Failure) → Action T → Action T
rescue handler m s =
    let (o, s') = m s in
    elim o [ failure e ↦ (failure (handled handler e), s') | success t ↦ (success t, s') ]
