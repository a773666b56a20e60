-- ===== src/Virt/Ahv/Entities/Distinct.antt =====
-- The map has each host once.
use virt_who.Base.{
  String, ◌≡◌, subst, Bool, true, false, List, [], ◌∷◌, ◌++◌, ◌==◌, string_eq, if◌then◌else◌,
  is_empty, ok, >>=-eq-ok, arith, Option-cases, Bool-cases, inl, inr,
}
use virt_who.Base.Dict.{Dict, lookup, insert, has, NodupKeys, insert-NodupKeys}
use virt_who.Virt.Ahv.Entities.{
  Vm, Host, HostedHost, fresh, add_host, append_guest, reduce_host_vm_map, reduce_all, all_hosts,
  map_hosts,
}

if-NodupKeys :
    (b : Bool) (x y : Dict HostedHost) → NodupKeys x → NodupKeys y → NodupKeys (if b then x else y)
if-NodupKeys true x y hx hy = hx
if-NodupKeys false x y hx hy = hy

add_host-NodupKeys :
    (u : String) (hs : List Host) (m : Dict HostedHost) → NodupKeys m → NodupKeys (add_host u hs m)
unfolding add_host
add_host-NodupKeys u [] m d = d
add_host-NodupKeys u (h ∷ hs) m d =
    add_host-NodupKeys u hs (if h.uuid == u then insert u (fresh h) m else m)
      (if-NodupKeys (h.uuid == u) _ _ (insert-NodupKeys u (fresh h) m d) d)

all_hosts-NodupKeys :
    (hs : List Host) (m : Dict HostedHost) → NodupKeys m → NodupKeys (all_hosts hs m)
unfolding all_hosts
all_hosts-NodupKeys [] m d = d
all_hosts-NodupKeys (h ∷ hs) m d =
    all_hosts-NodupKeys hs (if has h.uuid m then m else insert h.uuid (fresh h) m)
      (if-NodupKeys (has h.uuid m) _ _ d (insert-NodupKeys h.uuid (fresh h) m d))

append_guest-NodupKeys :
    (u : String) (vm : Vm) (m m' : Dict HostedHost)
    → NodupKeys m
    → append_guest u vm m ≡ ok m'
    → NodupKeys m'
append_guest-NodupKeys u vm m m' d e = elim (Option-cases (lookup u m)) [
  | inl absent ↦ absurd (ground (arith, e, absent))
  | inr (h, found) ↦
      subst NodupKeys (ground (arith, e, found))
        (insert-NodupKeys u (record h { guest_list = h.guest_list ++ (vm ∷ []) }) m d)
]

module _ (hosts : List Host) where
  reduce_host_vm_map-NodupKeys :
      (vm : Vm) (m m' : Dict HostedHost)
      → NodupKeys m
      → reduce_host_vm_map hosts vm m ≡ ok m'
      → NodupKeys m'
  unfolding reduce_host_vm_map
  reduce_host_vm_map-NodupKeys vm m m' d e = elim (Option-cases vm.host_uuid) [
    | inl off ↦ subst NodupKeys (ground (arith, e, off)) d
    | inr (u, at) ↦ elim (Bool-cases (u == "")) [
      | inl empty ↦ subst NodupKeys (ground (arith, e, at, empty)) d
      | inr placed ↦
          append_guest-NodupKeys u vm (if has u m then m else add_host u hosts m) m'
            (if-NodupKeys (has u m) _ _ d (add_host-NodupKeys u hosts m d))
            (ground (arith, e, at, placed))
    ]
  ]

  reduce_all-NodupKeys :
      (vms : List Vm) (m m' : Dict HostedHost)
      → NodupKeys m
      → reduce_all hosts vms m ≡ ok m'
      → NodupKeys m'
  unfolding reduce_all
  reduce_all-NodupKeys [] m m' d e = subst NodupKeys (ground (arith, e)) d
  reduce_all-NodupKeys (vm ∷ vms) m m' d e =
      let (x, first, rest) = >>=-eq-ok (reduce_host_vm_map hosts vm m) (reduce_all hosts vms) e in
      reduce_all-NodupKeys vms x m' (reduce_host_vm_map-NodupKeys vm m x d first) rest

  -- A map that is built has each host once.
  pub map_hosts-NodupKeys :
      (vms : List Vm) (m : Dict HostedHost) → map_hosts hosts vms ≡ ok m → NodupKeys m
  unfolding map_hosts
  map_hosts-NodupKeys vms m e =
      let (x, first, rest) =
        >>=-eq-ok (reduce_all hosts vms []) (λ m. ok (if is_empty m then all_hosts hosts m else m))
          e in
      let d = reduce_all-NodupKeys vms [] x tt first in
      subst NodupKeys (ground (arith, rest))
        (if-NodupKeys (is_empty x) _ _ (all_hosts-NodupKeys hosts x d) d)
