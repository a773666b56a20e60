-- ===== src/Virt/Ahv/Entities/Hosted.antt =====
-- What a round, and all of them, make of each entry of the map.
use mathlib.Core.List.{append_assoc, append-nil}
use virt_who.Base.{
  String, ◌≡◌, refl, ap, ◌∙◌, Bool, true, false, Option, none, some, List, [], ◌∷◌, ◌++◌, ◌==◌,
  string_eq, if◌then◌else◌, any, select, is_empty, ok, >>=-eq-ok, Option-cases, Bool-cases, inl,
  inr, arith, same_text,
}
use virt_who.Base.Dict.{is_empty-insert, Dict, lookup, insert, has, lookup-insert}
use virt_who.Virt.Ahv.Entities.{
  Vm, Host, HostedHost, is_hosted, fresh, add_host, append_guest, reduce_host_vm_map, reduce_all,
  all_hosts,
}

abbrev pub is_on : String → Vm → Bool
is_on u vm = elim vm.host_uuid [
  | none ↦ false
  | some uuid ↦ if uuid == "" then false else uuid == u
]

abbrev pub last_host : String → List Host → Option Host
last_host u [] = none
last_host u (h ∷ hs) = elim (last_host u hs) [
  | none ↦ if h.uuid == u then some h else none
  | some x ↦ some x
]

abbrev pub first_host : String → List Host → Option Host
first_host u [] = none
first_host u (h ∷ hs) = let later = first_host u hs in if h.uuid == u then some h else later

abbrev pub hosting : List Vm → Option Host → Option HostedHost
hosting vms none = none
hosting vms (some h) = some (record { host = h; guest_list = vms })

pub lookup-add_host :
    (u j : String) (hs : List Host) (m : Dict HostedHost)
    → lookup j (add_host u hs m) ≡ (
        if u == j
        then elim (last_host u hs) [ none ↦ lookup j m | some h ↦ some (fresh h) ]
        else lookup j m)
unfolding add_host
lookup-add_host u j [] m = ground arith
lookup-add_host u j (h ∷ hs) m = ground (
  arith,
  same_text u j,
  lookup-add_host u j hs m,
  lookup-add_host u j hs (insert u (fresh h) m),
  lookup-insert u j (fresh h) m,
)

pub lookup-all_hosts :
    (hs : List Host) (j : String) (m : Dict HostedHost)
    → lookup j (all_hosts hs m)
      ≡ (elim (lookup j m) [ none ↦ hosting [] (first_host j hs) | some w ↦ some w ])
unfolding all_hosts
lookup-all_hosts [] j m = ground arith
lookup-all_hosts (h ∷ hs) j m = ground (
  arith,
  same_text h.uuid j,
  lookup-all_hosts hs j m,
  lookup-all_hosts hs j (insert h.uuid (fresh h) m),
  lookup-insert h.uuid j (fresh h) m,
)

pub empty-lookup : (m : Dict HostedHost) (u : String) → is_empty m ≡ true → lookup u m ≡ none
unfolding lookup
empty-lookup [] u e = refl
empty-lookup ((k, w) ∷ m) u e = cc

module _ (hosts : List Host) where
  -- What an entry of the map becomes when machines are put on their hosts.
  abbrev pub extend : String → List Vm → Option HostedHost → Option HostedHost
  extend u vms none =
      if any (is_on u) vms then hosting (select (is_on u) vms) (last_host u hosts) else none
  extend u vms (some w) = some (record w { guest_list = w.guest_list ++ select (is_on u) vms })

  extend-off :
      (u : String) (vm : Vm) (o : Option HostedHost) → is_on u vm ≡ false → extend u (vm ∷ []) o ≡ o
  extend-off u vm none off = ground (arith, off)
  extend-off u vm (some w) off = ground (arith, off, append-nil w.guest_list)

  appended :
      (uuid : String) (vm : Vm) (m m' : Dict HostedHost) (u : String)
      → append_guest uuid vm m ≡ ok m'
      → lookup u m' ≡ (
          if uuid == u
          then elim (lookup u m) [
            | none ↦ none
            | some h ↦ some (record h { guest_list = h.guest_list ++ (vm ∷ []) })
          ]
          else lookup u m)
  appended uuid vm m m' u e = elim (Option-cases (lookup uuid m)) [
    | inl absent ↦ ground (arith, e, absent)
    | inr (h, found) ↦ ground (
      arith,
      e,
      found,
      same_text uuid u,
      lookup-insert uuid u (record h { guest_list = h.guest_list ++ (vm ∷ []) }) m,
    )
  ]

  appended-full :
      (uuid : String) (vm : Vm) (m m' : Dict HostedHost)
      → append_guest uuid vm m ≡ ok m'
      → is_empty m' ≡ false
  appended-full uuid vm m m' e = elim (Option-cases (lookup uuid m)) [
    | inl absent ↦ ground (arith, e, absent)
    | inr (h, found) ↦ ground (
      arith,
      e,
      found,
      is_empty-insert uuid (record h { guest_list = h.guest_list ++ (vm ∷ []) }) m,
    )
  ]

  lookup-reduce_host_vm_map :
      (vm : Vm) (m m' : Dict HostedHost) (u : String)
      → reduce_host_vm_map hosts vm m ≡ ok m'
      → lookup u m' ≡ extend u (vm ∷ []) (lookup u m)
  unfolding reduce_host_vm_map
  lookup-reduce_host_vm_map vm m m' u e = elim (Option-cases vm.host_uuid) [
    | inl off ↦ ground (arith, e, off, extend-off u vm (lookup u m))
    | inr (uuid, at) ↦ elim (Bool-cases (uuid == "")) [
      | inl empty ↦ ground (arith, e, at, empty, extend-off u vm (lookup u m))
      | inr placed ↦ ground (
        arith,
        e,
        at,
        placed,
        extend-off u vm (lookup u m),
        same_text uuid u,
        appended uuid vm (if has uuid m then m else add_host uuid hosts m) m' u,
        lookup-add_host uuid u hosts m,
      )
    ]
  ]

  extend-cons :
      (u : String) (vm : Vm) (vms : List Vm) (o : Option HostedHost)
      → extend u vms (extend u (vm ∷ []) o) ≡ extend u (vm ∷ vms) o
  extend-cons u vm vms none = elim (Option-cases (last_host u hosts)) [
    | inl unknown ↦ ground (arith, unknown)
    | inr (h, known) ↦ ground (arith, known)
  ]
  extend-cons u vm vms (some w) =
      ground
        (arith, append_assoc w.guest_list (vm ∷ []) (select (is_on u) vms), append-nil w.guest_list)

  pub lookup-reduce_all :
      (vms : List Vm) (m m' : Dict HostedHost) (u : String)
      → reduce_all hosts vms m ≡ ok m'
      → lookup u m' ≡ extend u vms (lookup u m)
  unfolding reduce_all
  lookup-reduce_all [] m m' u e = elim (Option-cases (lookup u m)) [
    | inl absent ↦ ground (arith, e, absent)
    | inr (w, found) ↦ ground (arith, e, found, append-nil w.guest_list)
  ]
  lookup-reduce_all (vm ∷ vms) m m' u e =
      let (x, first, rest) = >>=-eq-ok (reduce_host_vm_map hosts vm m) (reduce_all hosts vms) e in
      lookup-reduce_all vms x m' u rest
      ∙ ap (extend u vms) (lookup-reduce_host_vm_map vm m x u first)
      ∙ extend-cons u vm vms (lookup u m)

  -- A round puts a host into the map exactly if its machine has one.
  step-is_empty :
      (vm : Vm) (m m' : Dict HostedHost)
      → reduce_host_vm_map hosts vm m ≡ ok m'
      → is_empty m' ≡ (if is_hosted vm then false else is_empty m)
  unfolding reduce_host_vm_map
  step-is_empty vm m m' e = elim (Option-cases vm.host_uuid) [
    | inl off ↦ ground (arith, e, off)
    | inr (uuid, at) ↦
        ground
          (arith, e, at, appended-full uuid vm (if has uuid m then m else add_host uuid hosts m) m')
  ]

  pub all-is_empty :
      (vms : List Vm) (m m' : Dict HostedHost)
      → reduce_all hosts vms m ≡ ok m'
      → is_empty m' ≡ (if any is_hosted vms then false else is_empty m)
  unfolding reduce_all
  all-is_empty [] m m' e = ground (arith, e)
  all-is_empty (vm ∷ vms) m m' e =
      let (x, first, rest) = >>=-eq-ok (reduce_host_vm_map hosts vm m) (reduce_all hosts vms) e in
      ground (arith, step-is_empty vm m x first, all-is_empty vms x m' rest)
