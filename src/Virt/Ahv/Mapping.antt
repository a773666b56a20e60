-- ===== src/Virt/Ahv/Mapping.antt =====
-- `get_host_guest_mapping_v2` of virtwho/virt/ahv/ahv.py.
pub mod Reported
use virt_who.Base.{
  String, Bool, Option, none, some, List, [], ◌∷◌, ◌++◌, ◌==◌, string_eq, if◌then◌else◌, Result, ok,
  raised, ◌>>=◌, key_error,
}
use virt_who.Base.Dict.{Dict, get_or, insert}
use virt_who.Config.Value.{ℤ}
use virt_who.Report.{Guest, GuestState, running, shutoff, unknown, Hypervisor}
use virt_who.Virt.Kubevirt.{int_text}
use virt_who.Virt.Ahv.Entities.{
  Answer, Vm, Host, Cluster, HostedHost, get_host_cluster_name, get_ahv_cluster_uuid_name_list,
  build_host_to_uvm_map,
}

-- The option `hypervisor_id`, which the section of an AHV source allows two values for.
pub data HypervisorId : Type 0 where
  by_uuid by_hostname : HypervisorId

abbrev pub vm_state : String → GuestState
vm_state power = if power == "on" then running else if power == "off" then shutoff else unknown

-- The loop over the machines of a host: one without a power state is passed over.
unfoldable pub guests_of : List Vm → List Guest
guests_of [] = []
guests_of (vm ∷ vms) = elim vm.power_state [
  | none ↦ guests_of vms
  | some power ↦
      record { uuid = vm.uuid; virt_who_type = "ahv"; state = vm_state power } ∷ guests_of vms
]

-- `host[key]`
abbrev pub required {ℓ} : {A : Type ℓ} → Option A → Result A
required none = raised key_error
required (some a) = ok a

abbrev pub with_cluster : Option String → Dict String → Dict String
with_cluster none facts = facts
with_cluster (some name) facts =
    if name == "" then facts else insert "hypervisor.cluster" name facts

abbrev pub hypervisor_id_of : HypervisorId → String → HostedHost → Option String
hypervisor_id_of by_uuid host_uuid w = some host_uuid
hypervisor_id_of by_hostname host_uuid w = w.host.name

abbrev pub keep_hypervisor : Hypervisor → List Hypervisor → List Hypervisor
keep_hypervisor h hs = if h.hypervisor_id == "" then hs else h ∷ hs

module _ (names : List (String × String)) where
  abbrev pub host_facts : String → HostedHost → ℤ → Dict String
  host_facts host_uuid w sockets = with_cluster (get_host_cluster_name w.host names) (
      ("cpu.cpu_socket(s)", int_text sockets)
      ∷ ("hypervisor.type", get_or w.host.hypervisor_type "AHV")
      ∷ ("hypervisor.version", get_or w.host.hypervisor_full_name "None")
      ∷ ("dmi.system.uuid", host_uuid)
      ∷ [])

  abbrev pub hypervisor_with : String → String → HostedHost → String → ℤ → Hypervisor
  hypervisor_with hypervisor_id host_uuid w host_name sockets = record {
    hypervisor_id = hypervisor_id;
    guest_ids = guests_of w.guest_list;
    name = some host_name;
    facts = some (host_facts host_uuid w sockets);
  }

  -- What is behind the test for the id.
  unfoldable pub host_hypervisor : String → String → HostedHost → Result Hypervisor
  unfolding guests_of
  host_hypervisor hypervisor_id host_uuid w = do
    host_name ← required w.host.name
    sockets ← required w.host.num_cpu_sockets
    ok (hypervisor_with hypervisor_id host_uuid w host_name sockets)

  -- The loop over the map: a host without the name that is to be its id is passed over.
  unfoldable pub hypervisors_of : HypervisorId → Dict HostedHost → Result (List Hypervisor)
  unfolding host_hypervisor
  hypervisors_of id [] = ok []
  hypervisors_of id ((host_uuid, w) ∷ m) = elim (hypervisor_id_of id host_uuid w) [
    | none ↦ hypervisors_of id m
    | some hypervisor_id ↦ do
      h ← host_hypervisor hypervisor_id host_uuid w
      hs ← hypervisors_of id m
      ok (keep_hypervisor h hs)
  ]

-- `get_host_guest_mapping_v2()`, by the answers for hosts, machines and clusters.
unfoldable pub get_host_guest_mapping_v2 :
    HypervisorId → Answer Host → Answer Vm → Answer Cluster → Result (List Hypervisor)
unfolding hypervisors_of
get_host_guest_mapping_v2 id host_answer vm_answer cluster_answer = do
  m ← build_host_to_uvm_map host_answer vm_answer
  names ← get_ahv_cluster_uuid_name_list cluster_answer
  hypervisors_of names id m
