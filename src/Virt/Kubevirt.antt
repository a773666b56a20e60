-- ===== src/Virt/Kubevirt.antt =====
-- virtwho/virt/kubevirt/kubevirt.py: nodes of a Kubernetes cluster and the virtual machines on them.
pub mod Machines
pub mod Placed
use virt_who.Base.{
  ℕ, zero, suc, ◌+◌, ◌/◌, ◌%◌, take, drop, ltb, String, Bool, true, false, Option, none, some, List,
  [], ◌∷◌, ◌++◌, ◌==◌, string_eq, if◌then◌else◌, Result, ok, raised, ◌>>=◌, key_error,
}
use virt_who.Base.Dict.{Dict, lookup, insert}
use virt_who.Base.Chars.{Chars, chars, join, is_char}
use virt_who.Config.Value.{ℤ, pos, negsuc, str, to_int}
use virt_who.Report.{Guest, running, Hypervisor}

-- A node as the interface gives it: its name, its version, the id of its machine, its addresses by
-- their type, and its processors.
pub record Node : Type 0 where
  pub name : String
  pub kubelet_version : String
  pub machine_id : String
  pub addresses : Dict String
  pub cpu : String

-- A virtual machine: the node that it is scheduled on, and the uuid of its firmware.
pub record Machine : Type 0 where
  pub node_name : Option String
  pub uuid : String

-- The option `hypervisor_id`, which the section of a Kubevirt source allows two values for.
pub data HypervisorId : Type 0 where
  by_uuid by_hostname : HypervisorId

-- The last address of type `Hostname`, or what was there before.
unfoldable pub hostname_or : String → Dict String → String
hostname_or host_id [] = host_id
hostname_or host_id ((type, address) ∷ rest) =
    hostname_or (if type == "Hostname" then address else host_id) rest

unfoldable pub host_id : HypervisorId → Node → String
unfolding hostname_or
host_id by_uuid node = node.machine_id
host_id by_hostname node = hostname_or node.machine_id node.addresses

-- The facts of a node, by what `parse_cpu` makes of its processors, which may raise.
abbrev pub facts_of : Node → String → Dict String
facts_of node cpu =
    ("cpu.cpu_socket(s)", cpu)
    ∷ ("hypervisor.type", "qemu")
    ∷ ("dmi.system.uuid", node.machine_id)
    ∷ ("hypervisor.version", node.kubelet_version)
    ∷ []

abbrev pub guest_of : Machine → Guest
guest_of m = record { uuid = m.uuid; virt_who_type = "kubevirt"; state = running }

-- `str(n)` by the digits of a number, the last one first; a number has fewer digits than `n + 1`.
unfoldable pub digits_of : ℕ → ℕ → Chars
digits_of zero n = []
digits_of (suc fuel) n =
    let digit = take 1 (drop (n % 10) (chars "0123456789")) in
    let rest = digits_of fuel (n / 10) in if ltb n 10 then digit else rest ++ digit

unfoldable pub int_text : ℤ → String
unfolding digits_of
int_text (pos n) = join (digits_of (n + 1) n)
int_text (negsuc n) = join (chars "-" ++ digits_of (n + 2) (n + 1))

-- `math.floor(n / 1000)`
unfoldable pub thousandth : ℤ → ℤ
thousandth (pos n) = pos (n / 1000)
thousandth (negsuc n) = negsuc (n / 1000)

abbrev pub ends_with_m : Chars → Bool
ends_with_m [] = false
ends_with_m (c ∷ []) = is_char b'm' c
ends_with_m (c ∷ d ∷ cs) = ends_with_m (d ∷ cs)

abbrev pub but_last : Chars → Chars
but_last [] = []
but_last (c ∷ []) = []
but_last (c ∷ d ∷ cs) = c ∷ but_last (d ∷ cs)

-- `parse_cpu(cpu)`: thousandths of a processor are rounded down.
unfoldable pub parse_cpu : String → Result String
unfolding int_text thousandth
parse_cpu cpu =
    if ends_with_m (chars cpu)
    then (do n ← to_int (str (join (but_last (chars cpu)))); ok (int_text (thousandth n)))
    else ok cpu

module _ (id : HypervisorId) where
  abbrev pub hypervisor_of : Node → String → Hypervisor
  hypervisor_of node cpu = record {
    hypervisor_id = host_id id node;
    guest_ids = [];
    name = some node.name;
    facts = some (facts_of node cpu);
  }

  -- The loop over the nodes.
  unfoldable pub add_nodes : List Node → Dict Hypervisor → Result (Dict Hypervisor)
  unfolding host_id parse_cpu
  add_nodes [] hosts = ok hosts
  add_nodes (node ∷ nodes) hosts = do
    cpu ← parse_cpu node.cpu
    add_nodes nodes (insert node.name (hypervisor_of node cpu) hosts)

  -- A round for a machine: one that is not scheduled is passed over, and a node that is not there is
  -- a KeyError.
  unfoldable pub add_machine : Machine → Dict Hypervisor → Result (Dict Hypervisor)
  add_machine m hosts = elim m.node_name [
    | none ↦ ok hosts
    | some host_name ↦ elim (lookup host_name hosts) [
      | none ↦ raised key_error
      | some h ↦
          ok (insert host_name (record h { guest_ids = h.guest_ids ++ (guest_of m ∷ []) }) hosts)
    ]
  ]

  unfoldable pub add_machines : List Machine → Dict Hypervisor → Result (Dict Hypervisor)
  unfolding add_machine
  add_machines [] hosts = ok hosts
  add_machines (m ∷ ms) hosts = do hosts' ← add_machine m hosts; add_machines ms hosts'

  abbrev pub hypervisors_of : Dict Hypervisor → List Hypervisor
  hypervisors_of [] = []
  hypervisors_of ((name, h) ∷ hosts) = h ∷ hypervisors_of hosts

  -- `getHostGuestMapping()`, by what the client gives.
  unfoldable pub host_guest_mapping : List Node → List Machine → Result (List Hypervisor)
  unfolding add_nodes add_machines
  host_guest_mapping nodes machines = do
    hosts ← add_nodes nodes []
    hosts' ← add_machines machines hosts
    ok (hypervisors_of hosts')
