-- ===== src/Virt/Ahv/Entities/Listed.antt =====
-- Which hosts are in the map, and which machines are on them, where all hosts are listed.
use virt_who.Base.{
  String, ◌≡◌, refl, Bool, true, false, Option, none, some, List, [], ◌∷◌, ◌==◌, string_eq,
  if◌then◌else◌, any, all, is_empty, ok, raised, Exception, Result-cases, Option-cases, inl, inr,
  arith, same_text,
}
use virt_who.Base.Dict.{Dict, lookup, has, is_some}
use virt_who.Virt.Ahv.Entities.{
  Vm, Host, HostedHost, is_hosted, add_host, append_guest, reduce_host_vm_map, reduce_all,
  all_hosts, map_hosts,
}
use virt_who.Virt.Ahv.Entities.Hosted.{
  last_host, first_host, hosting, extend, lookup-add_host, lookup-all_hosts, empty-lookup,
  lookup-reduce_all, all-is_empty,
}

module _ (hosts : List Host) where
  -- A machine whose host is one of those that the server lists, if it has one.
  abbrev pub is_listed : Vm → Bool
  is_listed vm = elim vm.host_uuid [
    | none ↦ true
    | some uuid ↦ if uuid == "" then true else is_some (last_host uuid hosts)
  ]

  append_guest-known :
      (uuid : String) (vm : Vm) (m : Dict HostedHost) (x : Exception)
      → append_guest uuid vm m ≡ raised x
      → has uuid m ≡ false
  append_guest-known uuid vm m x e = elim (Option-cases (lookup uuid m)) [
    | inl absent ↦ ground (arith, absent)
    | inr (h, found) ↦ ground (arith, e, found)
  ]

  reduce_host_vm_map-unlisted :
      (vm : Vm) (m : Dict HostedHost) (x : Exception)
      → reduce_host_vm_map hosts vm m ≡ raised x
      → is_listed vm ≡ false
  unfolding reduce_host_vm_map
  reduce_host_vm_map-unlisted vm m x e = elim (Option-cases vm.host_uuid) [
    | inl off ↦ ground (arith, e, off)
    | inr (uuid, at) ↦ elim (Option-cases (last_host uuid hosts)) [
      | inl unknown ↦ ground (arith, e, at, unknown)
      | inr (h, known) ↦ ground (
        arith,
        e,
        at,
        known,
        same_text uuid uuid,
        append_guest-known uuid vm (if has uuid m then m else add_host uuid hosts m) x,
        lookup-add_host uuid uuid hosts m,
      )
    ]
  ]

  reduce_all-returns :
      (vms : List Vm) (m : Dict HostedHost)
      → all is_listed vms ≡ true
      → (m' : Dict HostedHost) × (reduce_all hosts vms m ≡ ok m')
  unfolding reduce_all
  reduce_all-returns [] m listed = (m, refl)
  reduce_all-returns (vm ∷ vms) m listed = elim (Result-cases (reduce_host_vm_map hosts vm m)) [
    | inl (x, failed) ↦ absurd (ground (arith, reduce_host_vm_map-unlisted vm m x failed, listed))
    | inr (m1, first) ↦
        let (m2, rest) = reduce_all-returns vms m1 (ground (arith, listed)) in
        (m2, rw (reduce_all, first) rest)
  ]

  -- What the map has under an uuid.
  abbrev pub hosted : String → List Vm → Option HostedHost
  hosted u vms =
      if any is_hosted vms then extend hosts u vms none else hosting [] (first_host u hosts)

  -- When the server lists the host of every machine that has one, the map is built. If a machine has
  -- a host, the map has the hosts with a machine, and no others, each with its machines in their
  -- order; if none has, it has all hosts, without machines.
  pub map_hosts-hosted :
      (vms : List Vm)
      → all is_listed vms ≡ true
      → (m : Dict HostedHost) × (map_hosts hosts vms ≡ ok m)
        × ((u : String) → lookup u m ≡ hosted u vms)
  unfolding map_hosts lookup
  map_hosts-hosted vms listed =
      let (m, e) = reduce_all-returns vms [] listed in
      let empty = all-is_empty hosts vms [] m e in
      (
        if is_empty m then all_hosts hosts m else m,
        rw (map_hosts, e) refl,
        λ u. ground (
          arith,
          empty,
          lookup-reduce_all hosts vms [] m u e,
          lookup-all_hosts hosts u m,
          empty-lookup m u,
        ),
      )
