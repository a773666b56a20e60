-- ===== src/Virt/Tests.antt =====
-- The theorems on the backends at concrete inputs.
use virt_who.Base.{
  ℕ, zero, suc, ◌-◌, arith, String, ◌≡◌, refl, true, false, not, select, none, some, List, [], ◌∷◌,
  map, ok, raised, index_error, key_error,
}
use virt_who.Base.Dict.{lookup, insert}
use virt_who.Base.Method.{success}
use virt_who.Config.Value.{bool}
use virt_who.Report.{Guest, running, shutoff, Hypervisor, hypervisor_dict, no_type, status_report}
use virt_who.Datastore.{put}
use virt_who.Source.{Backend, Source, is_terminated, report_with}
use virt_who.Virt.Ahv.{ahv_loop}
use virt_who.Virt.Ahv.Rest.{
  Reply, unreachable, response, returned, Sending, retry_count, send_request,
}
use virt_who.Virt.Ahv.Rest.Bounds.{IsBounded, send_request-IsBounded}
use virt_who.Virt.Ahv.Later.{IsSilent, ahv_loop-IsSilent}
use virt_who.Virt.Esx.{text, ObjectSet, Esx, entry, apply_updates}
use virt_who.Virt.Esx.Uuid.{vm_uuid}
use virt_who.Virt.Esx.Known.{said}
use virt_who.Virt.Esx.Said.{apply_updates-said}
use virt_who.Virt.Kubevirt.{Node, Machine, by_hostname, parse_cpu, host_id, host_guest_mapping}
use virt_who.Virt.Kubevirt.Placed.{OnNodes, host_guest_mapping-placed}
use virt_who.Virt.Fakevirt.{document, read_host_guest_mapping, hypervisor_doc, check_fake_virt_file}
use virt_who.Virt.Fakevirt.RoundTrip.{in_order, read_host_guest_mapping-hypervisor_doc}

abbrev node : String → Node
node name = record {
  name = name;
  kubelet_version = "v1";
  machine_id = "id";
  addresses = ("InternalIP", "10.0.0.1") ∷ ("Hostname", name) ∷ [];
  cpu = "8";
}

abbrev nodes : List Node
nodes = node "a" ∷ node "b" ∷ []

abbrev machines : List Machine
machines =
    record { node_name = some "b"; uuid = "1" }
    ∷ record { node_name = none; uuid = "2" }
    ∷ record { node_name = some "b"; uuid = "3" }
    ∷ []

abbrev hypervisor : String → List Guest → Hypervisor
hypervisor name guests = record {
  hypervisor_id = name;
  guest_ids = guests;
  name = some name;
  facts = some (
      ("cpu.cpu_socket(s)", "8")
      ∷ ("hypervisor.type", "qemu")
      ∷ ("dmi.system.uuid", "id")
      ∷ ("hypervisor.version", "v1")
      ∷ []);
}

abbrev guest : String → Guest
guest id = record { uuid = id; virt_who_type = "kubevirt"; state = running }

abbrev reported : List Hypervisor
reported = hypervisor "a" [] ∷ hypervisor "b" (guest "1" ∷ guest "3" ∷ []) ∷ []

mapping_run : host_guest_mapping by_hostname nodes machines ≡ ok reported
unfolding host_guest_mapping host_id parse_cpu lookup insert
mapping_run = refl

host_guest_mapping-placed_example : OnNodes by_hostname machines nodes reported
host_guest_mapping-placed_example =
    host_guest_mapping-placed by_hostname nodes machines reported (refl, (refl, tt)) mapping_run

parse_cpu_run :
    (parse_cpu "7910m" ≡ ok "7") × (parse_cpu "16000m" ≡ ok "16") × (parse_cpu "4" ≡ ok "4")
unfolding parse_cpu virt_who.Config.Value.to_int virt_who.Base.Chars.strip
    virt_who.Base.Chars.is_space
parse_cpu_run = (refl, refl, refl)

abbrev written : List Hypervisor
written =
    record {
      hypervisor_id = "h";
      guest_ids =
          record { uuid = "b"; virt_who_type = "esx"; state = shutoff }
          ∷ record { uuid = "a"; virt_who_type = "esx"; state = running }
          ∷ [];
      name = none;
      facts = none;
    }
    ∷ []

read_host_guest_mapping-hypervisor_doc_example :
    read_host_guest_mapping (document (some (map hypervisor_doc (map hypervisor_dict written))))
    ≡ success (map in_order written)
read_host_guest_mapping-hypervisor_doc_example = read_host_guest_mapping-hypervisor_doc written

-- A list of domains is not there: the validation of the option raises.
check_runs :
    (check_fake_virt_file true (bool false) (document (some [])) ≡ raised index_error)
    × (check_fake_virt_file true (bool false) (document none) ≡ raised key_error)
    × (check_fake_virt_file true (bool true) (document none) ≡ ok true)
unfolding check_fake_virt_file
check_runs = (refl, refl, refl)

-- A cluster enters, and is renamed.
abbrev cluster_update : String → String → ObjectSet
cluster_update kind name = record {
  type = "ClusterComputeResource";
  value = "domain-c1";
  kind = kind;
  change_set = record { name = "name"; op = "assign"; val = some (text name) } ∷ [];
}

abbrev updates : List ObjectSet
updates = cluster_update "enter" "old" ∷ cluster_update "modify" "new" ∷ []

abbrev nothing_known : Esx
nothing_known = record { hosts = []; vms = []; clusters = [] }

renamed_run :
    apply_updates updates nothing_known
    ≡ ok (record nothing_known { clusters = ("domain-c1", ("name", text "old") ∷ []) ∷ [] })
unfolding apply_updates lookup insert
renamed_run = refl

apply_updates-said_example :
    (lookup "name" (entry "domain-c1" [])
      ≡ said "HostSystem" "enter" "modify" "domain-c1" "name" updates
          (lookup "name" (entry "domain-c1" [])))
    × (lookup "name" (entry "domain-c1" (("domain-c1", ("name", text "old") ∷ []) ∷ []))
        ≡ said "ClusterComputeResource" "enter" "kind" "domain-c1" "name" updates
            (lookup "name" (entry "domain-c1" [])))
apply_updates-said_example =
    apply_updates-said updates nothing_known
      (record nothing_known { clusters = ("domain-c1", ("name", text "old") ∷ []) ∷ [] })
      "domain-c1" "name" renamed_run

vm_uuid_run :
    vm_uuid (
      ("config.uuid", text "78563412-ab90-efcd-1234-567890abcdef")
      ∷ ("config.version", text "vmx-13")
      ∷ [])
    ≡ ok "12345678-90ab-cdef-1234-567890abcdef"
unfolding vm_uuid lookup virt_who.Config.Value.to_int virt_who.Base.Chars.strip
    virt_who.Base.Chars.is_space
vm_uuid_run = refl

-- A source of the type AHV, not in status mode, after its first report.
abbrev backend : Backend
backend = record {
  name = "acme";
  oneshot = false;
  status = false;
  interval = 2;
  is_hypervisor = true;
  exclude_hosts = none;
  filter_hosts = none;
  filter_type = no_type;
  prepared = success tt;
  confirm = λ n. success tt;
  mapping = λ n. success written;
  domains = λ n. success [];
  poll_time = λ n. 0;
  terminate_at = some 5;
}

abbrev first_sent : Source
first_sent = record { time = 0; stopped = false; polls = 1; store = [] }

abbrev last_sent : Source
last_sent = record {
  time = 5;
  stopped = false;
  polls = 1;
  store = ("acme", report_with backend status_report) ∷ [];
}

ahv_run_once : ahv_loop backend 6 false 2 first_sent ≡ some (success tt, last_sent)
unfolding ahv_loop is_terminated put insert
ahv_run_once = refl

ahv_loop-IsSilent_example : IsSilent backend first_sent last_sent
ahv_loop-IsSilent_example =
    ahv_loop-IsSilent backend 6 2 first_sent last_sent (success tt) ahv_run_once

-- A server that is not reached, then has too many requests, and then answers.
abbrev late : ℕ → Reply
late zero = unreachable
late (suc zero) = response 429
late _ = response 200

late_send :
    send_request late 5 (retry_count none 5)
    ≡ some (record { sent = returned 200; last = 2; slept = 10 })
unfolding send_request retry_count
late_send = refl

send_request-IsBounded_example :
    (s : Sending) × (send_request late 5 (retry_count none 5) ≡ some s)
    × IsBounded late 5 (retry_count none 5 - 1) 0 0 s
send_request-IsBounded_example = send_request-IsBounded late 5 none 5 (omega arith)
