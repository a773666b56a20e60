-- ===== src/Virt/Kubevirt/Machines.antt =====
-- What the loop over the machines makes of the nodes.
use mathlib.Core.List.{append_assoc, append-nil}
use virt_who.Base.{
  String, ◌≡◌, refl, ap, sym, ◌∙◌, subst, Bool, false, none, some, List, [], ◌∷◌, ◌++◌, map, select,
  if◌then◌else◌, ◌==◌, string_eq, arith, same_text, ok, >>=-eq-ok, Option-cases, ◌⊎◌, inl, inr,
}
use virt_who.Base.Dict.{Dict, lookup, insert, has, NodupKeys, insert-NodupKeys}
use virt_who.Report.{Guest, Hypervisor}
use virt_who.Virt.Kubevirt.{
  Node, Machine, HypervisorId, guest_of, hypervisor_of, parse_cpu, add_nodes, add_machine,
  add_machines,
}

abbrev pub is_on : String → Machine → Bool
is_on name m = elim m.node_name [ none ↦ false | some n ↦ n == name ]

abbrev pub with_guests : List Guest → Hypervisor → Hypervisor
with_guests guests h = record h { guest_ids = h.guest_ids ++ guests }

-- Every node with the machines that are scheduled on it, in the order of the machines.
abbrev pub placed : List Machine → Dict Hypervisor → Dict Hypervisor
placed ms [] = []
placed ms ((name, h) ∷ hosts) =
    (name, with_guests (map guest_of (select (is_on name) ms)) h) ∷ placed ms hosts

-- One machine, on the node with its name.
abbrev add_one : String → Guest → Dict Hypervisor → Dict Hypervisor
add_one k g [] = []
add_one k g ((name, h) ∷ hosts) =
    (name, if name == k then with_guests (g ∷ []) h else h) ∷ add_one k g hosts

add_one-absent :
    (k : String) (g : Guest) (hosts : Dict Hypervisor)
    → has k hosts ≡ false
    → add_one k g hosts ≡ hosts
unfolding lookup
add_one-absent k g [] absent = refl
add_one-absent k g ((name, h) ∷ hosts) absent = ground (arith, add_one-absent k g hosts)

insert-add_one :
    (k : String) (g : Guest) (h : Hypervisor) (hosts : Dict Hypervisor)
    → NodupKeys hosts
    → lookup k hosts ≡ some h
    → insert k (with_guests (g ∷ []) h) hosts ≡ add_one k g hosts
unfolding lookup insert
insert-add_one k g h [] distinct found = cc
insert-add_one k g h ((name, w) ∷ hosts) distinct found = ground (
  arith,
  same_text name k,
  insert-add_one k g h hosts distinct.1,
  add_one-absent k g hosts,
  distinct.0,
)

has-add_one :
    (k j : String) (g : Guest) (hosts : Dict Hypervisor) → has j (add_one k g hosts) ≡ has j hosts
unfolding lookup
has-add_one k j g [] = refl
has-add_one k j g ((name, h) ∷ hosts) = ground (arith, has-add_one k j g hosts)

add_one-NodupKeys :
    (k : String) (g : Guest) (hosts : Dict Hypervisor)
    → NodupKeys hosts
    → NodupKeys (add_one k g hosts)
add_one-NodupKeys k g [] distinct = tt
add_one-NodupKeys k g ((name, h) ∷ hosts) distinct =
    (has-add_one k name g hosts ∙ distinct.0, add_one-NodupKeys k g hosts distinct.1)

with_guests-more :
    (guests : List Guest) (g : Guest) (h : Hypervisor)
    → with_guests guests (with_guests (g ∷ []) h) ≡ with_guests (g ∷ guests) h
with_guests-more guests g h =
    ap (λ gs. record h { guest_ids = gs }) (append_assoc h.guest_ids (g ∷ []) guests)

placed-add_one :
    (m : Machine) (k : String) (ms : List Machine) (hosts : Dict Hypervisor)
    → m.node_name ≡ some k
    → placed ms (add_one k (guest_of m) hosts) ≡ placed (m ∷ ms) hosts
placed-add_one m k ms [] on = refl
placed-add_one m k ms ((name, h) ∷ hosts) on = ground (
  arith,
  same_text name k,
  same_text k name,
  with_guests-more (map guest_of (select (is_on name) ms)) (guest_of m) h,
  placed-add_one m k ms hosts on,
)

placed-none :
    (m : Machine) (ms : List Machine) (hosts : Dict Hypervisor)
    → m.node_name ≡ none
    → placed (m ∷ ms) hosts ≡ placed ms hosts
placed-none m ms [] off = refl
placed-none m ms ((name, h) ∷ hosts) off = ground (arith, placed-none m ms hosts off)

placed-nil : (hosts : Dict Hypervisor) → placed [] hosts ≡ hosts
placed-nil [] = refl
placed-nil ((name, h) ∷ hosts) = ground (arith, append-nil h.guest_ids, placed-nil hosts)

module _ (id : HypervisorId) where
  -- A round that returns leaves the nodes as they were, or one of them has a machine more.
  add_machine_lem :
      (m : Machine) (hosts x : Dict Hypervisor)
      → NodupKeys hosts
      → add_machine id m hosts ≡ ok x
      → (m.node_name ≡ none) × (x ≡ hosts)
        ⊎ (k : String) × (m.node_name ≡ some k) × (x ≡ add_one k (guest_of m) hosts)
  unfolding add_machine
  add_machine_lem m hosts x distinct e = elim (Option-cases m.node_name) [
    | inl off ↦ inl (off, ground (arith, e, off))
    | inr (k, on) ↦ elim (Option-cases (lookup k hosts)) [
      | inl absent ↦ inl (ground (arith, e, on, absent))
      | inr (h, found) ↦ inr (
        k,
        on,
        ground (arith, e, on, found, insert-add_one k (guest_of m) h hosts distinct found),
      )
    ]
  ]

  pub add_machines-placed :
      (ms : List Machine) (hosts hosts' : Dict Hypervisor)
      → NodupKeys hosts
      → add_machines id ms hosts ≡ ok hosts'
      → hosts' ≡ placed ms hosts
  unfolding add_machines
  add_machines-placed [] hosts hosts' distinct e = ground (arith, placed-nil hosts, e)
  add_machines-placed (m ∷ ms) hosts hosts' distinct e =
      let (x, first, rest) = >>=-eq-ok (add_machine id m hosts) (add_machines id ms) e in
      elim (add_machine_lem m hosts x distinct first) [
        | inl (off, same) ↦
            add_machines-placed ms x hosts' (subst NodupKeys (sym same) distinct) rest
            ∙ ap (placed ms) same
            ∙ sym (placed-none m ms hosts off)
        | inr (k, on, more) ↦
            add_machines-placed ms x hosts'
              (subst NodupKeys (sym more) (add_one-NodupKeys k (guest_of m) hosts distinct)) rest
            ∙ ap (placed ms) more
            ∙ placed-add_one m k ms hosts on
      ]

  pub add_nodes-NodupKeys :
      (nodes : List Node) (hosts hosts' : Dict Hypervisor)
      → NodupKeys hosts
      → add_nodes id nodes hosts ≡ ok hosts'
      → NodupKeys hosts'
  unfolding add_nodes
  add_nodes-NodupKeys [] hosts hosts' distinct e = subst NodupKeys (ground (arith, e)) distinct
  add_nodes-NodupKeys (node ∷ nodes) hosts hosts' distinct e =
      let (cpu, read, rest) =
        >>=-eq-ok (parse_cpu node.cpu)
          (λ cpu. add_nodes id nodes (insert node.name (hypervisor_of id node cpu) hosts)) e in
      add_nodes-NodupKeys nodes (insert node.name (hypervisor_of id node cpu) hosts) hosts'
        (insert-NodupKeys node.name (hypervisor_of id node cpu) hosts distinct) rest
