-- ===== src/Virt/Ahv/Tests.antt =====
-- The theorems on the interfaces of AHV at concrete answers.
use virt_who.Base.{
  String, ◌≡◌, refl, arith, false, none, some, List, [], ◌∷◌, ◌==◌, string_eq, if◌then◌else◌, any,
  select, All, ok,
}
use virt_who.Config.Value.{pos}
use virt_who.Report.{Hypervisor, running}
use virt_who.Virt.Ahv.Entities.{
  Answer, entities, Vm, Host, Cluster, build_host_to_uvm_map, name_or, uuid_names,
}
use virt_who.Base.Dict.{lookup, insert}
use virt_who.Virt.Kubevirt.{int_text}
use virt_who.Virt.Ahv.Entities.Hosted.{is_on}
use virt_who.Virt.Ahv.Mapping.{by_uuid, guests_of, get_host_guest_mapping_v2}
use virt_who.Virt.Ahv.Mapping.Reported.{is_mapped, get_host_guest_mapping_v2-reported}
use virt_who.Virt.Ahv.Pages.{get_vm_entities}
use virt_who.Virt.Ahv.Pages.Gathered.{served, get_vm_entities-gathered}

abbrev names : List String
names = "a" ∷ "b" ∷ "c" ∷ []

get_vm_entities-gathered_example : get_vm_entities (served (λ _. 2) names) 4 ≡ some names
get_vm_entities-gathered_example =
    get_vm_entities-gathered (served (λ _. 2) names) (λ _. 2) names 4 (λ o. omega arith) (λ o. refl)
      (omega arith)

abbrev host : String → Host
host uuid = record {
  uuid = uuid;
  name = some uuid;
  num_cpu_sockets = some (pos 2);
  hypervisor_type = none;
  hypervisor_full_name = none;
  cluster_uuid = some "c";
}

abbrev hosts : List Host
hosts = host "a" ∷ host "b" ∷ []

-- Two machines on the first host, of which one has no power state, and one that is off.
abbrev vms : List Vm
vms =
    record { uuid = "1"; host_uuid = some "a"; power_state = some "on" }
    ∷ record { uuid = "2"; host_uuid = some "a"; power_state = none }
    ∷ record { uuid = "3"; host_uuid = none; power_state = some "off" }
    ∷ []

abbrev clusters : Answer Cluster
clusters = entities (record { uuid = some "c"; name = some "main" } ∷ [])

-- The second host is not there.
abbrev reported : List Hypervisor
reported =
    record {
      hypervisor_id = "a";
      guest_ids = record { uuid = "1"; virt_who_type = "ahv"; state = running } ∷ [];
      name = some "a";
      facts = some (
          ("cpu.cpu_socket(s)", "2")
          ∷ ("hypervisor.type", "AHV")
          ∷ ("hypervisor.version", "None")
          ∷ ("dmi.system.uuid", "a")
          ∷ ("hypervisor.cluster", "main")
          ∷ []);
    }
    ∷ []

mapping_run :
    get_host_guest_mapping_v2 by_uuid (entities hosts) (entities vms) clusters ≡ ok reported
unfolding get_host_guest_mapping_v2 build_host_to_uvm_map lookup insert name_or uuid_names int_text
mapping_run = refl

get_host_guest_mapping_v2-reported_example :
    ((u : String)
      → any (λ h. h.hypervisor_id == u) reported
        ≡ (if u == "" then false else is_mapped hosts u vms))
    × All (λ h. h.guest_ids ≡ guests_of (select (is_on h.hypervisor_id) vms)) reported
get_host_guest_mapping_v2-reported_example =
    get_host_guest_mapping_v2-reported hosts vms clusters reported refl mapping_run
