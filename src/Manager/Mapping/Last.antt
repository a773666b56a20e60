-- ===== src/Manager/Mapping/Last.antt =====
-- Which guests the server is told of, when hypervisors share an id and when none do.
use mathlib.Core.List.{append_assoc, append-nil}
use virt_who.Base.{
  String, ◌≡◌, refl, ap, sym, ◌∙◌, Bool, true, false, Option, none, some, List, [], ◌∷◌, ◌++◌, map,
  if◌then◌else◌, ◌==◌, string_eq, arith,
}
use virt_who.Base.Keys.{Keys, contains}
use virt_who.Base.Dict.{Dict, lookup, insert, keys, has, lookup-insert, contains-keys}
use virt_who.Report.{GuestDict, Hypervisor}
use virt_who.Manager.Mapping.{sync_mapping, guest_dicts, warned, collect_guests, hypervisor_mapping}

-- The guests of the last hypervisor with an id, or those given without one.
abbrev pub last_guests :
    String → List Hypervisor → Option (List GuestDict) → Option (List GuestDict)
last_guests id [] found = found
last_guests id (h ∷ hs) found =
    last_guests id hs (if h.hypervisor_id == id then some (guest_dicts h) else found)

abbrev pub entry : Hypervisor → String × List GuestDict
entry h = (h.hypervisor_id, guest_dicts h)

lookup-collect_guests :
    (id : String) (hs : List Hypervisor) (d : Dict (List GuestDict))
    → lookup id (collect_guests hs d) ≡ last_guests id hs (lookup id d)
unfolding collect_guests
lookup-collect_guests id [] d = refl
lookup-collect_guests id (h ∷ hs) d =
    lookup-collect_guests id hs (insert h.hypervisor_id (guest_dicts h) d)
    ∙ ap (last_guests id hs) (lookup-insert h.hypervisor_id id (guest_dicts h) d)

insert-new :
    (k : String) (v : List GuestDict) (d : Dict (List GuestDict))
    → has k d ≡ false
    → insert k v d ≡ d ++ ((k, v) ∷ [])
unfolding insert lookup
insert-new k v [] u = refl
insert-new k v ((j, w) ∷ d) u = ground (arith, insert-new k v d)

keys-append : (d e : Dict (List GuestDict)) → keys (d ++ e) ≡ keys d ++ keys e
unfolding keys
keys-append [] e = refl
keys-append ((j, w) ∷ d) e = ap (λ r. j ∷ r) (keys-append d e)

not_shown :
    (b : Bool) (k : String) (rest : Keys)
    → (if b then k ∷ rest else rest) ≡ []
    → (b ≡ false) × (rest ≡ [])
not_shown true k rest u = cc
not_shown false k rest u = (refl, u)

-- What a round without a warning leaves.
unwarned :
    (h : Hypervisor) (hs : List Hypervisor) (seen : Keys)
    → warned (h ∷ hs) seen ≡ []
    → (contains seen h.hypervisor_id ≡ false) × (warned hs (seen ++ (h.hypervisor_id ∷ [])) ≡ [])
unfolding warned
unwarned h hs seen u =
    not_shown (contains seen h.hypervisor_id) h.hypervisor_id
      (warned hs (seen ++ (h.hypervisor_id ∷ []))) u

-- Without a warning every hypervisor adds an entry at the end.
collect_guests-distinct :
    (hs : List Hypervisor) (d : Dict (List GuestDict))
    → warned hs (keys d) ≡ []
    → collect_guests hs d ≡ d ++ map entry hs
unfolding collect_guests keys
collect_guests-distinct [] d u = sym (append-nil d)
collect_guests-distinct (h ∷ hs) d u =
    let (fresh, rest) = unwarned h hs (keys d) u in
    let added =
      insert-new h.hypervisor_id (guest_dicts h) d
        (sym (contains-keys d h.hypervisor_id) ∙ fresh) in
    ap (collect_guests hs) added
    ∙ collect_guests-distinct hs (d ++ (entry h ∷ []))
        (ap (warned hs) (keys-append d (entry h ∷ [])) ∙ rest)
    ∙ append_assoc d (entry h ∷ []) (map entry hs)

-- In the interface without jobs an id has the guests of the last hypervisor that the report has with
-- it, and if no warning was given, every hypervisor is sent with its own guests, in the order of the
-- report.
pub hypervisor_mapping-sync :
    (hs : List Hypervisor)
    → (d : Dict (List GuestDict)) × ((hypervisor_mapping false hs).0 ≡ sync_mapping d)
      × ((id : String) → lookup id d ≡ last_guests id hs none)
      × ((hypervisor_mapping false hs).1 ≡ [] → d ≡ map entry hs)
unfolding hypervisor_mapping lookup keys
hypervisor_mapping-sync hs = (
  collect_guests hs [],
  refl,
  (λ id. lookup-collect_guests id hs []),
  collect_guests-distinct hs [],
)
