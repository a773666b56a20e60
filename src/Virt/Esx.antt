-- ===== src/Virt/Esx.antt =====
-- virtwho/virt/esx/esx.py: what the backend knows of hosts, virtual machines and clusters, which the
-- server's updates change. A property has the type that the server's interface gives it.
pub mod Uuid
pub mod Hosts
pub mod Known
pub mod Said
pub mod Swapped
use virt_who.Base.{
  String, Bool, true, false, ◌||◌, Option, none, some, List, [], ◌∷◌, if◌then◌else◌, ◌==◌,
  string_eq, Result, ok, raised, ◌>>=◌, key_error, attribute_error,
}
use virt_who.Base.Dict.{Dict, lookup, insert, erase, has, get_or}

-- A text, the virtual machines of a host, or a reference to a parent by its type and its value.
pub data Property : Type 0 where
  text : String → Property
  machines : List String → Property
  parent : String → String → Property

-- `change`, and an `objectSet` of an update: its object's type and value, its kind and its changes.
pub record Change : Type 0 where
  pub name : String
  pub op : String
  pub val : Option Property

pub record ObjectSet : Type 0 where
  pub type : String
  pub value : String
  pub kind : String
  pub change_set : List Change

abbrev pub Properties : Type 0
Properties = Dict Property

pub record Esx : Type 0 where
  pub hosts : Dict Properties
  pub vms : Dict Properties
  pub clusters : Dict Properties

-- `d[key]` of a `defaultdict`, which has the key from then on.
abbrev pub entry : String → Dict Properties → Properties
entry k d = get_or (lookup k d) []

-- `change.op == 'assign' and hasattr(change, 'val')`
abbrev pub assigns : Change → Option Property
assigns c = if c.op == "assign" then c.val else none

-- A round for a cluster or a host: only an assignment changes it.
unfoldable pub assign_change : Change → Properties → Properties
assign_change c d = elim (assigns c) [ none ↦ d | some v ↦ insert c.name v d ]

unfoldable pub assign_changes : List Change → Properties → Properties
unfolding assign_change
assign_changes [] d = d
assign_changes (c ∷ cs) d = assign_changes cs (assign_change c d)

-- A round for a virtual machine, of which the properties that are asked for are texts, so `add` raises.
unfoldable pub machine_change : Change → Properties → Result Properties
machine_change c d = elim (assigns c) [
  | some v ↦ ok (insert c.name v d)
  | none ↦
      if c.op == "remove" || c.op == "indirectRemove"
      then ok (erase c.name d)
      else if c.op == "add"
      then raised (if has c.name d then attribute_error else key_error)
      else ok d
]

unfoldable pub machine_changes : List Change → Properties → Result Properties
unfolding machine_change
machine_changes [] d = ok d
machine_changes (c ∷ cs) d = do d' ← machine_change c d; machine_changes cs d'

-- `del d[key]`
abbrev pub remove : String → Dict Properties → Result (Dict Properties)
remove k d = if has k d then ok (erase k d) else raised key_error

-- `applyClusterComputeResource`, with the kinds that it tests for. Another kind is only logged.
unfoldable pub apply_cluster : ObjectSet → Dict Properties → Result (Dict Properties)
unfolding assign_changes
apply_cluster o clusters =
    if o.kind == "enter" || o.kind == "kind"
    then ok (insert o.value (assign_changes o.change_set (entry o.value clusters)) clusters)
    else if o.kind == "leave"
    then remove o.value clusters
    else ok clusters

-- `applyVirtualMachineUpdate`
unfoldable pub apply_machine : ObjectSet → Dict Properties → Result (Dict Properties)
unfolding machine_changes
apply_machine o vms =
    if o.kind == "enter" || o.kind == "modify"
    then (do d ← machine_changes o.change_set (entry o.value vms); ok (insert o.value d vms))
    else if o.kind == "leave"
    then remove o.value vms
    else ok vms

-- `applyHostSystemUpdate`
unfoldable pub apply_host : ObjectSet → Dict Properties → Result (Dict Properties)
unfolding assign_changes
apply_host o hosts =
    if o.kind == "enter" || o.kind == "modify"
    then ok (insert o.value (assign_changes o.change_set (entry o.value hosts)) hosts)
    else if o.kind == "leave"
    then remove o.value hosts
    else ok hosts

-- A round of `applyUpdates`, and all of it, by the sets of all filters.
unfoldable pub apply_object : ObjectSet → Esx → Result Esx
unfolding apply_cluster apply_machine apply_host
apply_object o esx =
    if o.type == "VirtualMachine"
    then (do vms ← apply_machine o esx.vms; ok (record esx { vms = vms }))
    else if o.type == "HostSystem"
    then (do hosts ← apply_host o esx.hosts; ok (record esx { hosts = hosts }))
    else if o.type == "ClusterComputeResource"
    then (do clusters ← apply_cluster o esx.clusters; ok (record esx { clusters = clusters }))
    else ok esx

unfoldable pub apply_updates : List ObjectSet → Esx → Result Esx
unfolding apply_object
apply_updates [] esx = ok esx
apply_updates (o ∷ os) esx = do esx' ← apply_object o esx; apply_updates os esx'
