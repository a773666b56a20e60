-- ===== src/Source.antt =====
-- `Virt` of virtwho/virt/virt.py: the thread of a source, which polls a backend and puts a report into
-- the datastore.
pub mod Polls
mod Tests
use virt_who.Base.{
  ℕ, zero, suc, ◌+◌, String, Bool, true, false, ◌||◌, Option, none, some, List, [], ◌∷◌, leb,
  select, not, ◌==◌, string_eq, if◌then◌else◌, Result, ok, raised, key_error,
}
use virt_who.Base.Keys.{Keys, contains}
use virt_who.Base.Dict.{Dict}
use virt_who.Base.Method.{Finish, failure, success, Method, ◌>>=◌, return, change}
use virt_who.Report.{
  Report, created, Content, host_guest, domain_list, error_report, status_report, FilterType, Guest,
  Hypervisor,
}
use virt_who.Datastore.{put}
use virt_who.Thread.Run.{Worker}

-- `CONFIG_TYPE` of the subclasses, in the order of their imports.
abbrev pub config_types : Keys
config_types = "libvirt" ∷ "esx" ∷ "hyperv" ∷ "fake" ∷ "kubevirt" ∷ "ahv" ∷ []

-- `from_config`: the class for a type.
unfoldable pub class_for : String → Result String
unfolding contains
class_for type = if contains config_types type then ok type else raised key_error

-- `hypervisor_types()`
unfoldable pub hypervisor_types : Keys
hypervisor_types = select (λ t. not (t == "fake")) config_types

-- What does not change: the configuration of the source, what the backend answers by the number of
-- polls before, or the text of its exception, the seconds that a poll takes, and the second from
-- which the program is to terminate.
pub record Backend : Type 0 where
  pub name : String
  pub oneshot : Bool
  pub status : Bool
  pub interval : ℕ
  pub is_hypervisor : Bool
  pub exclude_hosts : Option (List String)
  pub filter_hosts : Option (List String)
  pub filter_type : FilterType
  pub prepared : Finish String Unit
  pub confirm : ℕ → Finish String Unit
  pub mapping : ℕ → Finish String (List Hypervisor)
  pub domains : ℕ → Finish String (List Guest)
  pub poll_time : ℕ → ℕ
  pub terminate_at : Option ℕ

pub record Source : Type 0 where
  pub time : ℕ
  pub stopped : Bool
  pub polls : ℕ
  pub store : Dict Report

module _ (backend : Backend) where
  unfoldable pub is_terminated : Source → Bool
  is_terminated s = s.stopped || elim backend.terminate_at [ none ↦ false | some n ↦ leb n s.time ]

  unfoldable pub wait : ℕ → Source → Source
  wait zero s = s
  wait (suc n) s =
      let rest = wait n (record s { time = s.time + 1 }) in if is_terminated s then s else rest

  abbrev pub report_with : Content → Report
  report_with content = record {
    config_name = backend.name;
    state = created;
    job_id = none;
    content = content;
  }

  -- A question to the backend, which takes its time.
  abbrev pub polled : Source → Source
  polled s = record s { time = s.time + backend.poll_time s.polls; polls = s.polls + 1 }

  abbrev pub poll : {T : Type 0} → (ℕ → Finish String T) → Method Source String T
  poll answer s = (answer s.polls, polled s)

  -- `_get_report()`, which is all of `_get_data()`.
  unfoldable pub get_report : Method Source String Report
  get_report =
      if backend.status
      then (do _ ← poll backend.confirm; return (report_with status_report))
      else if backend.is_hypervisor
      then (do
        hypervisors ← poll backend.mapping
        return (
            report_with (
              host_guest (record {
                hypervisors = hypervisors;
                exclude_hosts = backend.exclude_hosts;
                filter_hosts = backend.filter_hosts;
                filter_type = backend.filter_type;
              }))))
      else (do guests ← poll backend.domains; return (report_with (domain_list guests none)))

  -- `_send_data(data_to_send)`
  unfoldable pub send_data : Report → Method Source String Unit
  unfolding is_terminated put
  send_data report s =
      if is_terminated s
      then return tt s
      else change (λ x. record x { store = put backend.name report x.store }) s

  -- The report on an exception: an ErrorReport, or in status mode a StatusReport.
  abbrev pub failure_report : String → Report
  failure_report text = report_with (if backend.status then status_report else error_report)

  -- The thread.
  unfoldable pub worker : Worker Source String Report
  unfolding is_terminated wait get_report send_data
  worker = record {
    interval = backend.interval;
    oneshot = backend.oneshot;
    prepare = λ s. (backend.prepared, s);
    get_data = get_report;
    send_data = send_data;
    failure_report = failure_report;
    is_terminated = is_terminated;
    stop = λ s. record s { stopped = true };
    clock = λ s. s.time;
    wait = wait;
  }
