-- ===== src/Manager/Satellite.antt =====
-- virtwho/manager/satellite/satellite.py: the manager that talks to a Satellite 5 by XML-RPC.
pub mod Register
pub mod Saved
pub mod Swallowed
pub mod Notify
mod Tests
use virt_who.Base.{ℕ, String, Bool, true, false, Option, none, some, List, [], ◌∷◌}
use virt_who.Base.Dict.{Dict, lookup, insert}
use virt_who.Base.Method.{Finish, failure, success, Method, return, raise, change}
use virt_who.Config.Value.{ℤ}
use virt_who.Report.{GuestState}

-- What a call may raise: a fault with a code, or another exception.
pub data Trouble : Type 0 where
  fault_code : ℤ → Trouble
  other_exception : Trouble

pub data Received (T : Type 0) : Type 0 where
  raises : Trouble → Received T
  gives : T → Received T

-- `SatelliteError` by its message, or an exception that is not handled.
pub data SatelliteError : Type 0 where
  no_login no_user_details no_channel no_new_channel channel_refused no_map map_refused :
      SatelliteError
  not_registered no_profile no_system not_sent unhandled : SatelliteError

-- The record of a registered system, with its `'system_id'`.
pub record System : Type 0 where
  pub system_id : Option String

-- A file with a system id: what `pickle` reads from it, if it can.
pub data SystemFile : Type 0 where
  pickled : Option System → SystemFile
  broken : SystemFile

-- The events of a plan. A domain has the uuid, the name and the state of its guest.
pub data Event : Type 0 where
  host_exists crawl_began crawl_ended : Event
  domain_exists : String → String → String → Event

pub data Rpc : Type 0 where
  login get_details set_map : Rpc
  channel_details create_channel : String → Rpc
  new_system : String → Rpc
  refresh_profile : String → Rpc
  virt_notify : String → List Event → Rpc

-- The server, with its answer to each call by the calls up to it, the options of the manager and of
-- the report, and the file names that can be written.
pub record Satellite : Type 0 where
  pub force_register : Bool
  pub hypervisor_type : String
  pub answer_login : List Rpc → Received Unit
  pub answer_details : List Rpc → Received String
  pub answer_channel : List Rpc → Received Bool
  pub answer_create : List Rpc → Received ℤ
  pub answer_map : List Rpc → Received ℤ
  pub answer_system : List Rpc → Received (Option System)
  pub answer_refresh : List Rpc → Received Unit
  pub answer_notify : List Rpc → Received Unit
  pub writable : String → Bool

-- The state: the calls so far with the last one first, and the files by the hypervisor's uuid.
pub record Link : Type 0 where
  pub calls : List Rpc
  pub files : Dict SystemFile

abbrev pub Act : Type 0 → Type 0
Act T = Method Link SatelliteError T

-- A call without handlers around it, and one whose exceptions all become one error.
abbrev pub attempt : {T : Type 0} → Rpc → (List Rpc → Received T) → Act (Received T)
attempt c answer s = (success (answer (c ∷ s.calls)), record s { calls = c ∷ s.calls })

abbrev pub or_error : {T : Type 0} → SatelliteError → Received T → Act T
or_error e (raises x) = raise e
or_error e (gives t) = return t

-- `try: ... except Exception as e: raise SatelliteError(...)`
abbrev pub call : {T : Type 0} → SatelliteError → Rpc → (List Rpc → Received T) → Act T
call e c answer s = or_error e (answer (c ∷ s.calls)) (record s { calls = c ∷ s.calls })
