-- ===== src/Manager/Tests.antt =====
-- The theorems on the manager at concrete inputs.
use virt_who.Base.Method.{success, After}
use mathlib.Core.Option
use virt_who.Base.{
  ℕ, zero, suc, ◌+◌, ◌<◌, String, ◌≡◌, refl, subst, Bool, true, false, Option, none, some, List, [],
  ◌∷◌, map, arith, ok, Result,
}
use virt_who.Base.Dict.{Dict, lookup, insert}
use virt_who.Config.Value.{Value, str, int, pos, truthy, to_int}
use virt_who.Config.Section.{Section, needs_validation, get_item}
use virt_who.Report.{
  Report, created, finished, no_type, Guest, GuestDict, running, Hypervisor, host_guest,
}
use virt_who.Report.Filter.{Matching}
use virt_who.Thread.{Setting, Thread, Request, Answer, job_state, throttled, missing, call_count}
use virt_who.Thread.Jobs.{check_report_status}
use virt_who.Thread.Jobs.Polling.{outcome}
use virt_who.Manager.{
  Answered, fault, reply, rate_limit_exceeded, open_connection, ping, Job, no_data, Rhsm, Session,
}
use virt_who.Manager.Mapping.{sync_mapping, hypervisor_mapping}
use virt_who.Manager.Mapping.Last.{last_guests, entry, hypervisor_mapping-sync}
use virt_who.Manager.Connect.{connect}
use virt_who.Manager.Connect.Identity.{Identified, said, connect-Identified}
use virt_who.Manager.Calls.{check_in_hosts}
use virt_who.Manager.Calls.Sent.{Accounted, check_in_hosts-Accounted}
use virt_who.Manager.State.{state_of_job}
use virt_who.Manager.State.Polled.{
  IsLimited, IsInState, Serves, limited_lem, in_state_lem, check_report_status-manager,
}

abbrev guest : String → Guest
guest id = record { uuid = id; virt_who_type = "fake"; state = running }

abbrev host : String → List Guest → Hypervisor
host id guests = record { hypervisor_id = id; guest_ids = guests; name = none; facts = none }

abbrev hosts : List Hypervisor
hosts = host "a" (guest "1" ∷ []) ∷ host "b" [] ∷ host "a" (guest "2" ∷ []) ∷ []

hypervisor_mapping-sync_example :
    (d : Dict (List GuestDict)) × ((hypervisor_mapping false hosts).0 ≡ sync_mapping d)
    × ((id : String) → lookup id d ≡ last_guests id hosts none)
    × ((hypervisor_mapping false hosts).1 ≡ [] → d ≡ map entry hosts)
hypervisor_mapping-sync_example = hypervisor_mapping-sync hosts

abbrev server_option : String → String
server_option name = "443"

-- A server that takes everything, and one that lets each question for a job wait.
abbrev rhsm_with : Answered Job → Rhsm
rhsm_with job = record {
  server_option = server_option;
  cert_file = "cert.pem";
  key_file = "key.pem";
  cert_readable = true;
  common_name = some "uuid";
  correlation_id = "";
  answer_open = λ calls. reply tt;
  answer_ping = λ calls. reply true;
  answer_capability = λ calls. reply true;
  answer_check_in = λ calls. reply (record { id = some "7"; is_true = true });
  answer_job = λ calls. job;
  answer_update = λ calls. reply tt;
  answer_heartbeat = λ calls. reply true;
}

abbrev done_job : Job
done_job = record { state = some "FINISHED"; result_data = no_data }

abbrev rhsm : Rhsm
rhsm = rhsm_with (reply done_job)

abbrev config : Section Unit
config = record {
  name = "acme";
  defaults = [];
  unvalidated_keys = [];
  invalid_keys = [];
  values =
      ("owner", str "acme") ∷ ("rhsm_username", str "admin") ∷ ("rhsm_password", str "secret") ∷ [];
  validation_messages = [];
  validation_methods = [];
  destinations = [];
  required_keys = [];
  missing_required_keys = [];
  restricted = [];
  state = needs_validation;
}

abbrev report : Report
report = record {
  config_name = "acme";
  state = created;
  job_id = some "7";
  content = host_guest (record {
    hypervisors = hosts;
    exclude_hosts = none;
    filter_hosts = none;
    filter_type = no_type;
  });
}

abbrev session : Session
session = record {
  calls = [];
  connection = none;
  cert_uuid = none;
  report = report;
  last_job_status = none;
}

abbrev matching : Matching
matching = record { fnmatch = λ host pattern. true; re_match = λ host pattern. none }

check_in_hosts-Accounted_example :
    After
      (Accounted rhsm matching config none report)
      (check_in_hosts rhsm matching config none)
      session
check_in_hosts-Accounted_example = check_in_hosts-Accounted rhsm matching config none session

-- The state after the connection.
abbrev arguments : Dict Value
arguments =
    ("host", str "443")
    ∷ ("ssl_port", int (pos 443))
    ∷ ("handler", str "443")
    ∷ ("proxy_hostname", str "443")
    ∷ ("proxy_port", str "443")
    ∷ ("proxy_user", str "443")
    ∷ ("proxy_password", str "443")
    ∷ ("no_proxy", str "443")
    ∷ ("insecure", str "443")
    ∷ ("username", str "admin")
    ∷ ("password", str "secret")
    ∷ []

abbrev connected : Session
connected = record session {
  calls = ping ∷ open_connection arguments ∷ [];
  connection = some arguments;
}

connect_run : connect rhsm config session ≡ (success tt, connected)
unfolding connect to_int virt_who.Base.Chars.strip virt_who.Base.Chars.is_space lookup get_item
    truthy insert
connect_run = refl

connect-Identified_example :
    (kwargs : Dict Value) × Identified rhsm
      (said config "rhsm_username")
      (said config "rhsm_password")
      kwargs
    × (connected.calls ≡ ping ∷ open_connection kwargs ∷ [])
    × (connected.connection ≡ some kwargs)
connect-Identified_example = connect-Identified rhsm config session connected connect_run

-- The first question for a job is not taken, the second tells that it has finished.
abbrev rhsm_at : ℕ → Rhsm
rhsm_at zero = rhsm_with (fault (rate_limit_exceeded missing))
rhsm_at (suc n) = rhsm_with (reply done_job)

abbrev server_at : ℕ → Request → Answer
server_at zero r = throttled missing
server_at (suc n) r = job_state finished

abbrev setting : Setting
setting = record {
  name = "acme";
  oneshot = false;
  status = false;
  print = false;
  interval = 60;
  server = server_at;
  terminate_at = none;
  source = λ s k. none;
  report_hash = λ r. 0;
  report_owner = λ r. true;
}

abbrev thread : Thread
thread = record {
  time = 0;
  calls = [];
  stopped = false;
  is_initial_run = true;
  interval_modifier = pos 0;
  source_keys = [];
  last_report_for_source = [];
  submitted_report_and_hash_for_source = [];
  batches = λ n. report;
  next_batch = 0;
  has_owner = true;
}

connects : (job : Answered Job) (s : Session) → (connect (rhsm_with job) config s).0 ≡ success tt
unfolding connect to_int virt_who.Base.Chars.strip virt_who.Base.Chars.is_space lookup get_item
    truthy
connects job s = refl

abbrev first_limited : IsLimited config false (rhsm_at 0)
first_limited = record {
  connects = connects (fault (rate_limit_exceeded missing));
  retry_after = missing;
  limited = λ calls. refl;
}

limited_at : (n : ℕ) → n < 1 → IsLimited config false (rhsm_at (n + call_count thread.calls))
unfolding call_count
limited_at n h =
    subst (λ m. IsLimited config false (rhsm_at m)) {x = 0} (omega (arith, h)) first_limited

finished_at : (n : ℕ) → IsInState config false (rhsm_at (suc n)) "FINISHED"
finished_at n = record {
  connects = connects (reply done_job);
  job = done_job;
  named = refl;
  answered = λ calls. refl;
}

serves : Serves config false rhsm_at setting
unfolding state_of_job lookup
serves zero s = limited_lem config false (rhsm_at 0) s first_limited
serves (suc n) s = in_state_lem config false (rhsm_at (suc n)) s "FINISHED" (finished_at n)

check_report_status-manager_example :
    Option.map outcome (check_report_status setting 3 false report thread)
    ≡ some (record report { state = finished }, 2)
unfolding call_count state_of_job lookup
check_report_status-manager_example =
    check_report_status-manager config false rhsm_at setting 1 report thread "FINISHED" serves refl
      refl limited_at (finished_at 0)
