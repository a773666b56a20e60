-- ===== src/Source/Tests.antt =====
-- The theorems on the threads of sources at concrete inputs.
use virt_who.Base.{
  String, ◌≡◌, refl, Bool, true, false, Option, none, some, [], ◌∷◌, if◌then◌else◌, ok, raised,
  key_error,
}
use virt_who.Base.Method.{failure, success}
use virt_who.Base.Dict.{Dict}
use virt_who.Report.{no_type}
use virt_who.Datastore.{put}
use virt_who.Thread.Run.{run}
use virt_who.Thread.Run.Ends.{run-Stopped}
use virt_who.Source.{
  Backend, Source, is_terminated, get_report, polled, worker, failure_report, class_for,
  hypervisor_types,
}
use virt_who.Source.Polls.{reported, run-oneshot}

-- A backend that cannot be reached, in oneshot mode.
abbrev backend : Backend
backend = record {
  name = "acme";
  oneshot = true;
  status = false;
  interval = 60;
  is_hypervisor = true;
  exclude_hosts = none;
  filter_hosts = none;
  filter_type = no_type;
  prepared = success tt;
  confirm = λ n. success tt;
  mapping = λ n. failure "unreachable";
  domains = λ n. success [];
  poll_time = λ n. 3;
  terminate_at = some 100;
}

abbrev source : Source
source = record { time = 8; stopped = false; polls = 0; store = [] }

run-oneshot_example :
    run (worker backend) 1 1 source
    ≡ some (
      success tt,
      record (polled backend source) {
        stopped = true;
        store =
            if is_terminated backend (polled backend source)
            then []
            else put "acme" (reported backend (get_report backend source).0) [];
      },
    )
unfolding is_terminated
run-oneshot_example = run-oneshot backend 0 0 source refl refl refl

abbrev ended : Source
ended = record {
  time = 11;
  stopped = true;
  polls = 1;
  store = ("acme", failure_report backend "unreachable") ∷ [];
}

abbrev stops : (s : Source) → is_terminated backend (record s { stopped = true }) ≡ true
unfolding is_terminated
stops s = refl

run-Stopped_example : is_terminated backend ended ≡ true
unfolding worker is_terminated run get_report put virt_who.Base.Dict.insert
run-Stopped_example = run-Stopped (worker backend) stops 1 1 source ended refl

config_types_run :
    (class_for "esx" ≡ ok "esx")
    × (class_for "xen" ≡ raised key_error)
    × (hypervisor_types ≡ "libvirt" ∷ "esx" ∷ "hyperv" ∷ "kubevirt" ∷ "ahv" ∷ [])
unfolding class_for hypervisor_types
config_types_run = (refl, refl, refl)
