-- ===== src/Virt/Esx/Said.antt =====
-- What the backend knows of hosts and clusters behind any updates.
use virt_who.Base.{
  String, ◌≡◌, refl, sym, ap, ◌∙◌, true, false, Option, List, [], ◌∷◌, arith, ok, >>=-eq-ok, inl,
  inr, ◌&&◌, Bool-cases, Result-cases, same_text, subst, ◌==◌, string_eq, if◌then◌else◌,
}
use virt_who.Base.Dict.{lookup}
use virt_who.Virt.Esx.{
  Property, ObjectSet, Esx, entry, apply_host, apply_cluster, apply_machine, apply_object,
  apply_updates,
}
use virt_who.Virt.Esx.Known.{updated, said, known, known-apply_host, known-apply_cluster}

-- What is known of hosts and clusters behind one update of any object.
abbrev after_update :
    String → String → String → String → ObjectSet → Option Property → Option Property
after_update type modify k p o before =
    if o.type == type && o.value == k then updated "enter" modify o p before else before

-- What an update makes of a property of one host and of one of one cluster.
abbrev After : ObjectSet → Esx → Esx → String → String → Type 0
After o esx esx' k p =
    (known k p esx'.hosts ≡ after_update "HostSystem" "modify" k p o (known k p esx.hosts))
    × (known k p esx'.clusters
        ≡ after_update "ClusterComputeResource" "kind" k p o (known k p esx.clusters))

other_type : (t a b : String) → (t == a) ≡ true → (b == a) ≡ false → (t == b) ≡ false
other_type t a b is_a differ =
    ground (arith, is_a, differ, same_text t a, same_text t b, same_text b a)

apply_object-After :
    (o : ObjectSet) (esx esx' : Esx) (k p : String)
    → apply_object o esx ≡ ok esx'
    → After o esx esx' k p
unfolding apply_object
apply_object-After o esx esx' k p e = elim (Bool-cases (o.type == "VirtualMachine")) [
  | inl machine ↦ elim (Result-cases (apply_machine o esx.vms)) [
    | inl (x, failed) ↦ absurd (ground (arith, e, machine, failed))
    | inr (vms, made) ↦
        let same : record esx { vms = vms } ≡ esx' = ground (arith, e, machine, made) in
        let no_host = other_type o.type "VirtualMachine" "HostSystem" machine refl in
        let no_cluster = other_type o.type "VirtualMachine" "ClusterComputeResource" machine refl in
        subst (λ x. After o esx x k p) same (rw no_host refl, rw no_cluster refl)
  ]
  | inr not_machine ↦ elim (Bool-cases (o.type == "HostSystem")) [
    | inl of_host ↦ elim (Result-cases (apply_host o esx.hosts)) [
      | inl (x, failed) ↦ absurd (ground (arith, e, not_machine, of_host, failed))
      | inr (hosts, made) ↦
          let same : record esx { hosts = hosts } ≡ esx' =
            ground (arith, e, not_machine, of_host, made) in
          let no_cluster = other_type o.type "HostSystem" "ClusterComputeResource" of_host refl in
          subst (λ x. After o esx x k p) same
            (rw of_host (known-apply_host o esx.hosts hosts k p made), rw no_cluster refl)
    ]
    | inr no_host ↦ elim (Bool-cases (o.type == "ClusterComputeResource")) [
      | inl of_cluster ↦ elim (Result-cases (apply_cluster o esx.clusters)) [
        | inl (x, failed) ↦ absurd (ground (arith, e, not_machine, no_host, of_cluster, failed))
        | inr (clusters, made) ↦
            let same : record esx { clusters = clusters } ≡ esx' =
              ground (arith, e, not_machine, no_host, of_cluster, made) in
            subst (λ x. After o esx x k p) same
              (
                rw no_host refl,
                rw of_cluster (known-apply_cluster o esx.clusters clusters k p made),
              )
      ]
      | inr no_cluster ↦
          let same : esx ≡ esx' = ground (arith, e, not_machine, no_host, no_cluster) in
          subst (λ x. After o esx x k p) same (rw no_host refl, rw no_cluster refl)
    ]
  ]
]

-- Behind any updates that raise nothing, a property of a host is what the last change of it assigned
-- since the host last left, in an update that enters or modifies the host, and if there is none what
-- was known before, unless the host has left. For a property of a cluster the updates that modify
-- it are passed over: only those that enter it count, or are of a kind "kind".
pub apply_updates-said :
    (os : List ObjectSet) (esx esx' : Esx) (k p : String)
    → apply_updates os esx ≡ ok esx'
    → (lookup p (entry k esx'.hosts)
        ≡ said "HostSystem" "enter" "modify" k p os (lookup p (entry k esx.hosts)))
      × (lookup p (entry k esx'.clusters)
          ≡ said "ClusterComputeResource" "enter" "kind" k p os (lookup p (entry k esx.clusters)))
unfolding apply_updates
apply_updates-said [] esx esx' k p e =
    let same : esx ≡ esx' = ground (arith, e) in
    (
      ap (λ (x : Esx). lookup p (entry k x.hosts)) (sym same),
      ap (λ (x : Esx). lookup p (entry k x.clusters)) (sym same),
    )
apply_updates-said (o ∷ os) esx esx' k p e =
    let (x, first, rest) = >>=-eq-ok (apply_object o esx) (apply_updates os) e in
    let (hosts, clusters) = apply_object-After o esx x k p first in
    let (later_hosts, later_clusters) = apply_updates-said os x esx' k p rest in
    (
      later_hosts ∙ ap (said "HostSystem" "enter" "modify" k p os) hosts,
      later_clusters ∙ ap (said "ClusterComputeResource" "enter" "kind" k p os) clusters,
    )
