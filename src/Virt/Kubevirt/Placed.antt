-- ===== src/Virt/Kubevirt/Placed.antt =====
-- Which machines are reported on which node.
use mathlib.Core.List.{append_assoc, append-nil}
use virt_who.Base.{
  String, ◌≡◌, refl, ap, sym, ◌∙◌, subst, Bool, true, false, not, any, all, some, List, [], ◌∷◌,
  ◌++◌, map, select, ◌==◌, string_eq, arith, same_text, ok, >>=-eq-ok, ◌>>=◌,
}
use virt_who.Base.Dict.{Dict, lookup, insert, has, lookup-insert}
use virt_who.Report.{Hypervisor}
use virt_who.Virt.Kubevirt.{
  Node, Machine, HypervisorId, guest_of, facts_of, host_id, hypervisor_of, parse_cpu, add_nodes,
  add_machines, hypervisors_of, host_guest_mapping,
}
use virt_who.Virt.Kubevirt.Machines.{is_on, placed, add_machines-placed, add_nodes-NodupKeys}

-- Nodes with different names.
abbrev pub AreDistinct : List Node → Type 0
AreDistinct [] = Unit
AreDistinct (node ∷ nodes) = (any (λ n. n.name == node.name) nodes ≡ false) × AreDistinct nodes

insert-absent :
    (k : String) (h : Hypervisor) (d : Dict Hypervisor)
    → has k d ≡ false
    → insert k h d ≡ d ++ ((k, h) ∷ [])
unfolding insert lookup
insert-absent k h [] away = refl
insert-absent k h ((j, w) ∷ d) away = ground (arith, away, insert-absent k h d)

none_there : (nodes : List Node) → all (λ n. not (has {V = Hypervisor} n.name [])) nodes ≡ true
unfolding lookup
none_there [] = refl
none_there (n ∷ nodes) = none_there nodes

module _ (id : HypervisorId) where
  -- A hypervisor that reports a node with the machines on it.
  pub record IsNode (machines : List Machine) (node : Node) (h : Hypervisor) : Type 0 where
    pub id_of_node : h.hypervisor_id ≡ host_id id node
    pub guests : h.guest_ids ≡ map guest_of (select (is_on node.name) machines)
    pub named : h.name ≡ some node.name
    pub cpu : String
    pub parsed : parse_cpu node.cpu ≡ ok cpu
    pub facts : h.facts ≡ some (facts_of node cpu)

  -- One hypervisor for each node, in their order.
  abbrev pub OnNodes : List Machine → List Node → List Hypervisor → Type 0
  OnNodes machines [] [] = Unit
  OnNodes machines (node ∷ nodes) (h ∷ hs) = IsNode machines node h × OnNodes machines nodes hs
  OnNodes machines [] (h ∷ hs) = ⊥
  OnNodes machines (node ∷ nodes) [] = ⊥

  -- The entries that the nodes are given.
  abbrev Entered : List Node → Dict Hypervisor → Type 0
  Entered [] [] = Unit
  Entered (node ∷ nodes) ((k, h) ∷ hosts) = (k ≡ node.name) × IsNode [] node h × Entered nodes hosts
  Entered [] (h ∷ hosts) = ⊥
  Entered (node ∷ nodes) [] = ⊥

  abbrev absent : Node → Dict Hypervisor → Bool
  absent node hosts = not (has node.name hosts)

  still_absent :
      (node : Node) (h : Hypervisor) (nodes : List Node) (hosts : Dict Hypervisor)
      → any (λ n. n.name == node.name) nodes ≡ false
      → all (λ n. absent n hosts) nodes ≡ true
      → all (λ n. absent n (insert node.name h hosts)) nodes ≡ true
  still_absent node h [] hosts distinct away = refl
  still_absent node h (n ∷ nodes) hosts distinct away = ground (
    arith,
    distinct,
    away,
    still_absent node h nodes hosts,
    lookup-insert node.name n.name h hosts,
    same_text node.name n.name,
    same_text n.name node.name,
  )

  add_nodes-Entered :
      (nodes : List Node) (hosts hosts' : Dict Hypervisor)
      → AreDistinct nodes
      → all (λ n. absent n hosts) nodes ≡ true
      → add_nodes id nodes hosts ≡ ok hosts'
      → (new : Dict Hypervisor) × (hosts' ≡ hosts ++ new) × Entered nodes new
  unfolding add_nodes
  add_nodes-Entered [] hosts hosts' distinct away e = ([], ground (arith, e, append-nil hosts), tt)
  add_nodes-Entered (node ∷ nodes) hosts hosts' distinct away e =
      let (cpu, read, rest) =
        >>=-eq-ok (parse_cpu node.cpu)
          (λ cpu. add_nodes id nodes (insert node.name (hypervisor_of id node cpu) hosts)) e in
      let h : Hypervisor = hypervisor_of id node cpu in
      let (new, added, entered) =
        add_nodes-Entered nodes (insert node.name h hosts) hosts' distinct.1
          (still_absent node h nodes hosts distinct.0 (ground (arith, away))) rest in
      (
        (node.name, h) ∷ new,
        added
            ∙ ap (λ d. d ++ new) (insert-absent node.name h hosts (ground (arith, away)))
            ∙ append_assoc hosts ((node.name, h) ∷ []) new,
        (
          refl,
          record {
            id_of_node = refl;
            guests = refl;
            named = refl;
            cpu = cpu;
            parsed = read;
            facts = refl;
          },
          entered,
        ),
      )

  placed-OnNodes :
      (machines : List Machine) (nodes : List Node) (hosts : Dict Hypervisor)
      → Entered nodes hosts
      → OnNodes machines nodes (hypervisors_of id (placed machines hosts))
  placed-OnNodes machines [] [] entered = tt
  placed-OnNodes machines [] (h ∷ hosts) entered = elim entered [ ]
  placed-OnNodes machines (node ∷ nodes) [] entered = elim entered [ ]
  placed-OnNodes machines (node ∷ nodes) ((k, h) ∷ hosts) entered = (
    record {
      id_of_node = entered.1.id_of_node;
      guests =
          ap (λ gs. gs ++ map guest_of (select (is_on k) machines)) entered.1.guests
          ∙ ap (λ x. map guest_of (select (is_on x) machines)) entered.0;
      named = entered.1.named;
      cpu = entered.1.cpu;
      parsed = entered.1.parsed;
      facts = entered.1.facts;
    },
    placed-OnNodes machines nodes hosts entered.2,
  )

  -- Of nodes with different names a mapping that is returned has one hypervisor each, in their order,
  -- with its id, its name and its facts, and with the machines that are scheduled on it, in their
  -- order, each as a guest that is running, and no other guests: a machine that is not scheduled is on
  -- none.
  pub host_guest_mapping-placed :
      (nodes : List Node) (machines : List Machine) (hypervisors : List Hypervisor)
      → AreDistinct nodes
      → host_guest_mapping id nodes machines ≡ ok hypervisors
      → OnNodes machines nodes hypervisors
  unfolding host_guest_mapping
  host_guest_mapping-placed nodes machines hypervisors different e =
      let (hosts, added, rest) =
        >>=-eq-ok (add_nodes id nodes [])
          (λ hosts. add_machines id machines hosts >>= λ hosts'. ok (hypervisors_of id hosts')) e in
      let (hosts', filled, whole) =
        >>=-eq-ok (add_machines id machines hosts) (λ hosts'. ok (hypervisors_of id hosts')) rest in
      let distinct = add_nodes-NodupKeys id nodes [] hosts tt added in
      let (new, same, entered) =
        add_nodes-Entered nodes [] hosts different (none_there nodes) added in
      subst (OnNodes machines nodes)
        (ap (λ d. hypervisors_of id (placed machines d)) (sym same)
          ∙ ap (hypervisors_of id)
              (sym (add_machines-placed id machines hosts hosts' distinct filled))
          ∙ ground (arith, whole))
        (placed-OnNodes machines nodes new entered)
