-- ===== src/Virt/Ahv/Entities.antt =====
-- `AhvInterface2` of virtwho/virt/ahv/ahv_interface.py, on the entities that the server gives.
pub mod Hosted
pub mod Listed
pub mod Distinct
use virt_who.Base.{
  String, Bool, true, false, not, ◌&&◌, Option, none, some, List, [], ◌∷◌, ◌++◌, ◌==◌, string_eq,
  if◌then◌else◌, Result, ok, raised, ◌>>=◌, key_error, attribute_error, is_empty,
}
use virt_who.Base.Dict.{Dict, lookup, insert, has}
use virt_who.Config.Value.{ℤ}

-- An answer to a call: none, as when the request was given up, one without the key `entities`, or
-- one with them.
pub data Answer {ℓ} (A : Type ℓ) : Type ℓ where
  no_response without_entities : Answer A
  entities : List A → Answer A

-- A virtual machine: it has a power state or not, and a host or not; a host of `None` is none.
pub record Vm : Type 0 where
  pub uuid : String
  pub host_uuid : Option String
  pub power_state : Option String

pub record Host : Type 0 where
  pub uuid : String
  pub name : Option String
  pub num_cpu_sockets : Option ℤ
  pub hypervisor_type : Option String
  pub hypervisor_full_name : Option String
  pub cluster_uuid : Option String

pub record Cluster : Type 0 where
  pub uuid : Option String
  pub name : Option String

-- A host in the map, with the machines that have been put under the key `guest_list`.
pub record HostedHost : Type 0 where
  pub host : Host
  pub guest_list : List Vm

abbrev pub get_vm_entities_v2 : Answer Vm → Result (List Vm)
get_vm_entities_v2 no_response = ok []
get_vm_entities_v2 without_entities = raised key_error
get_vm_entities_v2 (entities vms) = ok vms

abbrev pub get_host_list : Answer Host → Result (List Host)
get_host_list no_response = raised attribute_error
get_host_list without_entities = ok []
get_host_list (entities hosts) = ok hosts

-- The loop over the clusters: one without an uuid or a name is passed over.
unfoldable pub uuid_names : List Cluster → List (String × String)
uuid_names [] = []
uuid_names (c ∷ cs) = elim c.uuid [
  | none ↦ uuid_names cs
  | some uuid ↦ elim c.name [ none ↦ uuid_names cs | some name ↦ (uuid, name) ∷ uuid_names cs ]
]

abbrev pub get_ahv_cluster_uuid_name_list : Answer Cluster → Result (List (String × String))
get_ahv_cluster_uuid_name_list no_response = raised attribute_error
get_ahv_cluster_uuid_name_list without_entities = raised key_error
get_ahv_cluster_uuid_name_list (entities cs) = ok (uuid_names cs)

unfoldable pub name_or : String → List (String × String) → String
name_or cluster_uuid [] = cluster_uuid
name_or cluster_uuid ((uuid, name) ∷ rest) =
    let later = name_or cluster_uuid rest in if cluster_uuid == uuid then name else later

abbrev pub get_host_cluster_name : Host → List (String × String) → Option String
get_host_cluster_name host names = elim host.cluster_uuid [
  | none ↦ none
  | some uuid ↦ some (name_or uuid names)
]

-- `get_host_uuid_from_vm`, and whether the uuid counts as one.
abbrev pub is_hosted : Vm → Bool
is_hosted vm = elim vm.host_uuid [ none ↦ false | some uuid ↦ not (uuid == "") ]

abbrev pub fresh : Host → HostedHost
fresh host = record { host = host; guest_list = [] }

-- `for _host in host_list:` of `reduce_host_vm_map`, over what is left of the hosts.
unfoldable pub add_host : String → List Host → Dict HostedHost → Dict HostedHost
add_host uuid [] m = m
add_host uuid (h ∷ hs) m = add_host uuid hs (if h.uuid == uuid then insert uuid (fresh h) m else m)

abbrev pub append_guest : String → Vm → Dict HostedHost → Result (Dict HostedHost)
append_guest uuid vm m = elim (lookup uuid m) [
  | none ↦ raised key_error
  | some h ↦ ok (insert uuid (record h { guest_list = h.guest_list ++ (vm ∷ []) }) m)
]

module _ (host_list : List Host) where
  unfoldable pub reduce_host_vm_map : Vm → Dict HostedHost → Result (Dict HostedHost)
  unfolding add_host
  reduce_host_vm_map vm m = elim vm.host_uuid [
    | none ↦ ok m
    | some uuid ↦
        if uuid == ""
        then ok m
        else append_guest uuid vm (if has uuid m then m else add_host uuid host_list m)
  ]

  -- `reduce(reduce_host_vm_map, vm_entities, host_uvm_map)`
  unfoldable pub reduce_all : List Vm → Dict HostedHost → Result (Dict HostedHost)
  unfolding reduce_host_vm_map
  reduce_all [] m = ok m
  reduce_all (vm ∷ vms) m = do m' ← reduce_host_vm_map vm m; reduce_all vms m'

-- The hosts alone, when no machine had one.
unfoldable pub all_hosts : List Host → Dict HostedHost → Dict HostedHost
all_hosts [] m = m
all_hosts (h ∷ hs) m = all_hosts hs (if has h.uuid m then m else insert h.uuid (fresh h) m)

unfoldable pub map_hosts : List Host → List Vm → Result (Dict HostedHost)
unfolding reduce_all all_hosts
map_hosts hosts vms = do
  m ← reduce_all hosts vms []
  ok (if is_empty m then all_hosts hosts m else m)

-- `build_host_to_uvm_map()`
unfoldable pub build_host_to_uvm_map : Answer Host → Answer Vm → Result (Dict HostedHost)
unfolding map_hosts
build_host_to_uvm_map host_answer vm_answer = do
  hosts ← get_host_list host_answer
  vms ← get_vm_entities_v2 vm_answer
  map_hosts hosts vms
