-- ===== src/Virt/Ahv/Mapping/Reported.antt =====
-- Which hosts are reported, with which guests.
use virt_who.Base.{
  String, ◌≡◌, refl, sym, ap, subst, ◌∙◌, Bool, true, false, some, List, [], ◌∷◌, ◌==◌, string_eq,
  if◌then◌else◌, any, all, select, All, ok, ◌>>=◌, >>=-eq-ok, arith, same_text, Option-cases,
  Bool-cases, inl, inr,
}
use virt_who.Base.Dict.{Dict, lookup, has, is_some, NodupKeys}
use virt_who.Report.{Hypervisor}
use virt_who.Virt.Ahv.Entities.{
  Answer, entities, Vm, Host, Cluster, HostedHost, is_hosted, build_host_to_uvm_map,
  get_ahv_cluster_uuid_name_list,
}
use virt_who.Virt.Ahv.Entities.Hosted.{is_on, last_host, first_host}
use virt_who.Virt.Ahv.Entities.Listed.{is_listed, hosted, map_hosts-hosted}
use virt_who.Virt.Ahv.Entities.Distinct.{map_hosts-NodupKeys}
use virt_who.Virt.Ahv.Mapping.{
  by_uuid, guests_of, hypervisor_with, host_hypervisor, required, hypervisors_of,
  get_host_guest_mapping_v2, keep_hypervisor,
}

same_ok : {A : Type 0} → {a b : A} → ok a ≡ ok b → a ≡ b
same_ok e = cc

All-keep :
    (P : Hypervisor → Type 0) (h : Hypervisor) (hs : List Hypervisor)
    → P h
    → All P hs
    → All P (keep_hypervisor h hs)
All-keep P h hs p ps = elim (h.hypervisor_id == "") as (λ b. All P (if b then hs else h ∷ hs)) [
  | true ↦ ps
  | false ↦ (p, ps)
]

All-imp :
    {A : Type 0} {P Q : A → Type 0} (xs : List A) → ((x : A) → P x → Q x) → All P xs → All Q xs
All-imp [] f ps = tt
All-imp (x ∷ xs) f ps = (f x ps.0, All-imp xs f ps.1)

-- Each entry of a dict is what its key reads as.
NodupKeys-lookup :
    (m : Dict HostedHost)
    → NodupKeys m
    → All (λ (e : String × HostedHost). lookup e.0 m ≡ some e.1) m
unfolding lookup
NodupKeys-lookup [] d = tt
NodupKeys-lookup ((k, w) ∷ m) d = (
  ground (arith, same_text k k),
  All-imp m (λ e h. ground (arith, same_text k e.0, h, d.0)) (NodupKeys-lookup m d.1),
)

module _ (names : List (String × String)) where
  host_hypervisor_lem :
      (id u : String) (w : HostedHost) (h : Hypervisor)
      → host_hypervisor names id u w ≡ ok h
      → (h.hypervisor_id ≡ id) × (h.guest_ids ≡ guests_of w.guest_list)
  unfolding host_hypervisor
  host_hypervisor_lem id u w h e =
      let (name, _, rest) =
        >>=-eq-ok (required w.host.name)
          (λ name.
            required w.host.num_cpu_sockets >>= λ n. ok (hypervisor_with names id u w name n))
          e in
      let (n, _, made) =
        >>=-eq-ok (required w.host.num_cpu_sockets) (λ n. ok (hypervisor_with names id u w name n))
          rest in
      (ground (arith, made), ground (arith, made))

  cons-inv :
      (u : String) (w : HostedHost) (m : Dict HostedHost) (hs : List Hypervisor)
      → hypervisors_of names by_uuid ((u, w) ∷ m) ≡ ok hs
      → (h : Hypervisor) × (later : List Hypervisor) × (host_hypervisor names u u w ≡ ok h)
        × (hypervisors_of names by_uuid m ≡ ok later)
        × (keep_hypervisor h later ≡ hs)
  unfolding hypervisors_of
  cons-inv u w m hs e =
      let (h, made, rest) =
        >>=-eq-ok (host_hypervisor names u u w)
          (λ h. hypervisors_of names by_uuid m >>= λ hs. ok (keep_hypervisor h hs)) e in
      let (later, others, kept) =
        >>=-eq-ok (hypervisors_of names by_uuid m) (λ hs. ok (keep_hypervisor h hs)) rest in
      (h, later, made, others, ground (arith, kept))

  hypervisors_of-keys :
      (m : Dict HostedHost) (hs : List Hypervisor) (u : String)
      → hypervisors_of names by_uuid m ≡ ok hs
      → any (λ h. h.hypervisor_id == u) hs ≡ (if u == "" then false else has u m)
  unfolding hypervisors_of lookup
  hypervisors_of-keys [] hs u e = rw (sym (same_ok e)) (ground arith)
  hypervisors_of-keys ((k, w) ∷ m) hs u e =
      let (h, later, made, others, kept) = cons-inv k w m hs e in
      let (named, _) = host_hypervisor_lem k k w h made in
      rw (sym kept) (
        ground (
          arith,
          named,
          same_text k u,
          same_text k "",
          same_text u "",
          hypervisors_of-keys m later u others,
        ))

  -- The guests of a hypervisor that is reported are those of an entry of the map.
  hypervisors_of-guests :
      (f : String → List Vm) (m : Dict HostedHost) (hs : List Hypervisor)
      → All (λ e. e.1.guest_list ≡ f e.0) m
      → hypervisors_of names by_uuid m ≡ ok hs
      → All (λ h. h.guest_ids ≡ guests_of (f h.hypervisor_id)) hs
  unfolding hypervisors_of
  hypervisors_of-guests f [] hs agrees e =
      subst (All (λ h. h.guest_ids ≡ guests_of (f h.hypervisor_id))) (same_ok e) tt
  hypervisors_of-guests f ((k, w) ∷ m) hs agrees e =
      let (h, later, made, others, kept) = cons-inv k w m hs e in
      let (named, given) = host_hypervisor_lem k k w h made in
      subst (All (λ h. h.guest_ids ≡ guests_of (f h.hypervisor_id))) kept (
        All-keep (λ h. h.guest_ids ≡ guests_of (f h.hypervisor_id)) h later
          (given ∙ ap guests_of agrees.0 ∙ ap (λ u. guests_of (f u)) (sym named))
          (hypervisors_of-guests f m later agrees.1 others))

module _ (hosts : List Host) where
  select-unhosted :
      (u : String) (vms : List Vm) → any is_hosted vms ≡ false → select (is_on u) vms ≡ []
  select-unhosted u [] e = refl
  select-unhosted u (vm ∷ vms) e = elim (Option-cases vm.host_uuid) [
    | inl off ↦ ground (arith, off, select-unhosted u vms, e)
    | inr (uuid, at) ↦ ground (arith, at, select-unhosted u vms, e)
  ]

  hosted-guests :
      (u : String) (vms : List Vm) (w : HostedHost)
      → hosted hosts u vms ≡ some w
      → w.guest_list ≡ select (is_on u) vms
  hosted-guests u vms w e = elim (Bool-cases (any is_hosted vms)) [
    | inl running ↦ elim (Option-cases (last_host u hosts)) [
      | inl unknown ↦ ground (arith, e, running, unknown)
      | inr (h, known) ↦ ground (arith, e, running, known)
    ]
    | inr none_runs ↦ elim (Option-cases (first_host u hosts)) [
      | inl unknown ↦ ground (arith, e, none_runs, unknown)
      | inr (h, known) ↦ ground (arith, e, none_runs, known, select-unhosted u vms none_runs)
    ]
  ]

  listed-host :
      (u : String) (vms : List Vm)
      → all (is_listed hosts) vms ≡ true
      → any (is_on u) vms ≡ true
      → is_some (last_host u hosts) ≡ true
  listed-host u [] listed on = cc
  listed-host u (vm ∷ vms) listed on = elim (Option-cases vm.host_uuid) [
    | inl off ↦ listed-host u vms (ground (arith, off, listed)) (ground (arith, off, on))
    | inr (uuid, at) ↦ ground (arith, at, same_text uuid u, listed, on, listed-host u vms)
  ]

  -- Whether an uuid has a host in the map.
  abbrev pub is_mapped : String → List Vm → Bool
  is_mapped u vms = if any is_hosted vms then any (is_on u) vms else is_some (first_host u hosts)

  hosted-keys :
      (u : String) (vms : List Vm)
      → all (is_listed hosts) vms ≡ true
      → is_some (hosted hosts u vms) ≡ is_mapped u vms
  hosted-keys u vms listed = elim (Option-cases (last_host u hosts)) [
    | inl unknown ↦ elim (Option-cases (first_host u hosts)) [
      | inl absent ↦ ground (arith, unknown, absent, listed-host u vms listed)
      | inr (h, first) ↦ ground (arith, unknown, first, listed-host u vms listed)
    ]
    | inr (h, known) ↦ elim (Option-cases (first_host u hosts)) [
      | inl absent ↦ ground (arith, known, absent)
      | inr (h, first) ↦ ground (arith, known, first)
    ]
  ]

  -- When the server lists the host of every machine that has one, hypervisors are reported by their
  -- uuids, and the mapping returns: if a machine has a host, exactly the hosts with a machine are
  -- reported, though the server lists others, and if none has, all hosts are; an empty uuid is
  -- left out. Each has as guests the machines that are on it and have a power state, in their order.
  pub get_host_guest_mapping_v2-reported :
      (vms : List Vm) (clusters : Answer Cluster) (hs : List Hypervisor)
      → all (is_listed hosts) vms ≡ true
      → get_host_guest_mapping_v2 by_uuid (entities hosts) (entities vms) clusters ≡ ok hs
      → ((u : String)
          → any (λ h. h.hypervisor_id == u) hs ≡ (if u == "" then false else is_mapped u vms))
        × All (λ h. h.guest_ids ≡ guests_of (select (is_on h.hypervisor_id) vms)) hs
  unfolding get_host_guest_mapping_v2 build_host_to_uvm_map
  get_host_guest_mapping_v2-reported vms clusters hs listed e =
      let (m, built, entry) = map_hosts-hosted hosts vms listed in
      let distinct = map_hosts-NodupKeys hosts vms m built in
      let (names, _, rest) =
        >>=-eq-ok (get_ahv_cluster_uuid_name_list clusters)
          (λ names. hypervisors_of names by_uuid m) (ground (arith, e, built)) in
      (
        λ u.
            hypervisors_of-keys names m hs u rest
            ∙ ap (λ o. if u == "" then false else is_some o) (entry u)
            ∙ ap (λ b. if u == "" then false else b) (hosted-keys u vms listed),
        hypervisors_of-guests names (λ u. select (is_on u) vms) m hs
            (All-imp m (λ x h. hosted-guests x.0 vms x.1 (sym (entry x.0) ∙ h))
              (NodupKeys-lookup m distinct))
            rest,
      )
