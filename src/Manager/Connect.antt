-- ===== src/Manager/Connect.antt =====
-- The second part of `_connect`, and `uuid`: the connection and its first call.
pub mod Identity
use virt_who.Base.Method.{◌>>=◌, return, raise, change}
use virt_who.Base.{String, Bool, true, false, Option, none, some, List, ◌∷◌, if◌then◌else◌}
use virt_who.Base.Dict.{Dict}
use virt_who.Config.Value.{Value}
use virt_who.Config.Section.{Section}
use virt_who.Manager.{
  Fault, bad_status_line, rate_limit_exceeded, gone, connection_exception, crash, Failure,
  interrupted, throttle, unregistered, escaped, certificate_unreadable, no_server_status, Call,
  open_connection, ping, Rhsm, Session, Action, from_result, issue, rescue,
}
use virt_who.Manager.Arguments.{gather_arguments, authenticate, correlate}

-- The handlers around `ping`.
unfoldable pub ping_failure : Fault → Failure
ping_failure bad_status_line = interrupted
ping_failure (rate_limit_exceeded retry_after) = throttle retry_after
ping_failure f = escaped f

abbrev pub or_unregistered : Option (Dict Value) → Action (Dict Value)
or_unregistered none = raise unregistered
or_unregistered (some kwargs) = return kwargs

module _ (rhsm : Rhsm) where
  -- `if not self.connection.ping()['result']`
  unfoldable pub confirm : Action Unit
  unfolding ping_failure
  confirm = rescue ping_failure (
      issue ping rhsm.answer_ping >>= λ result.
      if result then return tt else raise no_server_status)

  -- `self.connection = rhsm_connection.UEPConnection(**kwargs)` and the question for its status.
  unfoldable pub open_with : Dict Value → Action Unit
  unfolding confirm
  open_with kwargs = do
    _ ← issue (open_connection kwargs) rhsm.answer_open
    _ ← change (λ s. record s { connection = some kwargs })
    confirm

  abbrev pub connect_as : Dict Value × Value × Value → Action Unit
  connect_as (kwargs, user, password) = do
    kwargs' ← or_unregistered (authenticate rhsm kwargs user password)
    open_with (correlate rhsm kwargs')

  -- `_connect(config)`
  unfoldable pub connect : {M : Type 0} → Section M → Action Unit
  unfolding gather_arguments authenticate correlate open_with
  connect config = do gathered ← from_result (gather_arguments config rhsm); connect_as gathered

  -- `uuid()`
  unfoldable pub uuid : Action String
  uuid s = elim s.cert_uuid [
    | some id ↦ (do return id) s
    | none ↦ elim rhsm.common_name [
      | none ↦ raise certificate_unreadable s
      | some id ↦ return id (record s { cert_uuid = some id })
    ]
  ]
