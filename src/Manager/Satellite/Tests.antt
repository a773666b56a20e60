-- ===== src/Manager/Satellite/Tests.antt =====
-- The theorems on the Satellite 5 manager at concrete inputs.
use virt_who.Base.{◌≡◌, refl, true, false, none, some, [], ◌∷◌, All}
use virt_who.Base.Dict.{lookup, insert}
use virt_who.Base.Method.{success}
use virt_who.Config.Value.{pos, negsuc, int_eq}
use virt_who.Report.{Report, created, finished, no_type, host_guest, Association}
use virt_who.Report.Filter.{Matching, association}
use virt_who.Manager.Satellite.{
  fault_code, raises, gives, System, pickled, login, get_details, channel_details, create_channel,
  set_map, new_system, refresh_profile, Satellite, Link,
}
use virt_who.Manager.Satellite.Register.{load_hypervisor}
use virt_who.Manager.Satellite.Saved.{load_hypervisor-again}
use virt_who.Manager.Satellite.Notify.{check_in_satellite}
use virt_who.Manager.Satellite.Swallowed.{Refuses, IsKnown, notices, check_in_satellite-swallowed}

abbrev system : System
system = record { system_id = some "ID-1" }

-- A server that registers, with a new channel, and refuses plans with the fault -3.
abbrev satellite : Satellite
satellite = record {
  force_register = false;
  hypervisor_type = "esx";
  answer_login = λ calls. gives tt;
  answer_details = λ calls. gives "1";
  answer_channel = λ calls. raises (fault_code (negsuc 209));
  answer_create = λ calls. gives (pos 1);
  answer_map = λ calls. gives (pos 1);
  answer_system = λ calls. gives (some system);
  answer_refresh = λ calls. gives tt;
  answer_notify = λ calls. raises (fault_code (negsuc 2));
  writable = λ uuid. true;
}

abbrev fresh : Link
fresh = record { calls = []; files = [] }

abbrev registered : Link
registered = record {
  calls =
      refresh_profile "ID-1"
      ∷ new_system "host"
      ∷ set_map
      ∷ create_channel "1"
      ∷ channel_details "1"
      ∷ get_details
      ∷ login
      ∷ [];
  files = ("host", pickled (some system)) ∷ [];
}

load_hypervisor_run : load_hypervisor satellite false "host" fresh ≡ (success system, registered)
unfolding load_hypervisor lookup insert int_eq
load_hypervisor_run = refl

load_hypervisor-again_example :
    load_hypervisor satellite false "host" registered ≡ (success system, registered)
load_hypervisor-again_example =
    load_hypervisor-again satellite "host" refl false system fresh registered refl
      load_hypervisor_run

abbrev matching : Matching
matching = record { fnmatch = λ host pattern. true; re_match = λ host pattern. none }

abbrev gathered : Association
gathered = record {
  hypervisors = record { hypervisor_id = "host"; guest_ids = []; name = none; facts = none } ∷ [];
  exclude_hosts = none;
  filter_hosts = none;
  filter_type = no_type;
}

abbrev report : Report
report = record {
  config_name = "acme";
  state = created;
  job_id = none;
  content = host_guest gathered;
}

abbrev refuses : Refuses satellite
unfolding int_eq
refuses = record { code = negsuc 2; other = refl; answer = λ calls. refl }

abbrev known : All (IsKnown satellite registered.files) (association matching gathered)
unfolding association lookup
known = (record { id = "ID-1"; file = refl }, tt)

check_in_satellite-swallowed_example : check_in_satellite satellite matching report registered ≡ (
  success (record report { state = finished }),
  record registered {
    calls =
        notices satellite registered.files (association matching gathered) known registered.calls;
  },
)
check_in_satellite-swallowed_example =
    check_in_satellite-swallowed satellite matching report gathered registered refuses refl refl
      known
