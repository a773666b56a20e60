-- ===== src/Virt/Esx/Known.antt =====
-- What one update makes of what the backend knows of a property of a host or a cluster.
use virt_who.Base.{
  String, ◌≡◌, refl, sym, ap, ◌∙◌, Option, none, some, List, [], ◌∷◌, arith, ok, inl, inr, ◌&&◌,
  ◌||◌, Bool-cases, Option-cases, same_text, same_text_self, subst, ◌==◌, string_eq, if◌then◌else◌,
}
use virt_who.Base.Dict.{Dict, lookup, insert, erase, has, first_of, lookup-insert, lookup-erase}
use virt_who.Virt.Esx.{
  Property, Change, ObjectSet, Properties, entry, assigns, assign_change, assign_changes, remove,
  apply_host, apply_cluster,
}

-- The value that the last change of a property assigns to it.
abbrev pub last_assigned : String → List Change → Option Property
last_assigned p [] = none
last_assigned p (c ∷ cs) = first_of (last_assigned p cs) (if c.name == p then assigns c else none)

-- What an update makes of a property of its object, where updates of these two kinds assign.
abbrev pub updated : String → String → ObjectSet → String → Option Property → Option Property
updated enter modify o p before =
    if o.kind == enter || o.kind == modify
    then first_of (last_assigned p o.change_set) before
    else if o.kind == "leave"
    then none
    else before

-- What the updates say of a property of one object of a type, by what was known before.
abbrev pub said :
    String → String → String → String → String → List ObjectSet → Option Property → Option Property
said type enter modify k p [] before = before
said type enter modify k p (o ∷ os) before =
    said type enter modify k p os
      (if o.type == type && o.value == k then updated enter modify o p before else before)

first_of_assoc : (a b c : Option Property) → first_of a (first_of b c) ≡ first_of (first_of a b) c
first_of_assoc none b c = refl
first_of_assoc (some a) b c = refl

lookup-assign_change :
    (p : String) (c : Change) (d : Properties)
    → lookup p (assign_change c d) ≡ first_of (if c.name == p then assigns c else none) (lookup p d)
unfolding assign_change
lookup-assign_change p c d = elim (Option-cases (assigns c)) [
  | inl none_given ↦ ground (arith, none_given)
  | inr (v, given) ↦ ground (arith, given, lookup-insert c.name p v d)
]

lookup-assign_changes :
    (p : String) (cs : List Change) (d : Properties)
    → lookup p (assign_changes cs d) ≡ first_of (last_assigned p cs) (lookup p d)
unfolding assign_changes
lookup-assign_changes p [] d = refl
lookup-assign_changes p (c ∷ cs) d =
    lookup-assign_changes p cs (assign_change c d)
    ∙ ap (first_of (last_assigned p cs)) (lookup-assign_change p c d)
    ∙ first_of_assoc (last_assigned p cs) (if c.name == p then assigns c else none) (lookup p d)

abbrev pub known : String → String → Dict Properties → Option Property
known k p d = lookup p (entry k d)

entry-insert_self : (k : String) (v : Properties) (d : Dict Properties) → entry k (insert k v d) ≡ v
entry-insert_self k v d = ground (arith, lookup-insert k k v d, same_text_self k)

known-entered_self :
    (k p : String) (cs : List Change) (d : Dict Properties)
    → known k p (insert k (assign_changes cs (entry k d)) d)
      ≡ first_of (last_assigned p cs) (known k p d)
known-entered_self k p cs d =
    ap (lookup p) (entry-insert_self k (assign_changes cs (entry k d)) d)
    ∙ lookup-assign_changes p cs (entry k d)

known-entered :
    (k j p : String) (cs : List Change) (d : Dict Properties)
    → known k p (insert j (assign_changes cs (entry j d)) d)
      ≡ (if j == k then first_of (last_assigned p cs) (known k p d) else known k p d)
known-entered k j p cs d = elim (Bool-cases (j == k)) [
  | inl same ↦
      let own : j ≡ k = ground (arith, same, same_text j k) in
      rw same (
        subst
          (λ x.
            known k p (insert x (assign_changes cs (entry x d)) d)
            ≡ first_of (last_assigned p cs) (known k p d))
          (sym own) (known-entered_self k p cs d))
  | inr other ↦ ground (arith, other, lookup-insert j k (assign_changes cs (entry j d)) d)
]

known-removed :
    (k j p : String) (d d' : Dict Properties)
    → remove j d ≡ ok d'
    → known k p d' ≡ (if j == k then none else known k p d)
unfolding lookup
known-removed k j p d d' e = elim (Bool-cases (has j d)) [
  | inl there ↦
      let erased : erase j d ≡ d' = ground (arith, e, there) in
      ap (known k p) (sym erased) ∙ ground (arith, lookup-erase j k d)
  | inr missing ↦ absurd (ground (arith, e, missing))
]

-- An update of a host, and of a cluster.
pub known-apply_host :
    (o : ObjectSet) (d d' : Dict Properties) (k p : String)
    → apply_host o d ≡ ok d'
    → known k p d'
      ≡ (if o.value == k then updated "enter" "modify" o p (known k p d) else known k p d)
unfolding apply_host
known-apply_host o d d' k p e = elim (Bool-cases (o.kind == "enter" || o.kind == "modify")) [
  | inl assigned ↦
      let new : insert o.value (assign_changes o.change_set (entry o.value d)) d ≡ d' =
        ground (arith, e, assigned) in
      ap (known k p) (sym new) ∙ rw assigned (known-entered k o.value p o.change_set d)
  | inr other ↦ elim (Bool-cases (o.kind == "leave")) [
    | inl leaves ↦
        rw (other, leaves) (known-removed k o.value p d d' (ground (arith, e, other, leaves)))
    | inr passed ↦ ground (arith, e, other, passed)
  ]
]

pub known-apply_cluster :
    (o : ObjectSet) (d d' : Dict Properties) (k p : String)
    → apply_cluster o d ≡ ok d'
    → known k p d'
      ≡ (if o.value == k then updated "enter" "kind" o p (known k p d) else known k p d)
unfolding apply_cluster
known-apply_cluster o d d' k p e = elim (Bool-cases (o.kind == "enter" || o.kind == "kind")) [
  | inl assigned ↦
      let new : insert o.value (assign_changes o.change_set (entry o.value d)) d ≡ d' =
        ground (arith, e, assigned) in
      ap (known k p) (sym new) ∙ rw assigned (known-entered k o.value p o.change_set d)
  | inr other ↦ elim (Bool-cases (o.kind == "leave")) [
    | inl leaves ↦
        rw (other, leaves) (known-removed k o.value p d d' (ground (arith, e, other, leaves)))
    | inr passed ↦ ground (arith, e, other, passed)
  ]
]
