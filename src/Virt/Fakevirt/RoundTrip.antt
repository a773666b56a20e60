-- ===== src/Virt/Fakevirt/RoundTrip.antt =====
-- Hypervisors that are written as `toDict` gives them are read back.
use virt_who.Base.{◌≡◌, refl, ap, ◌∙◌, List, [], ◌∷◌, map, arith, ok, some}
use virt_who.Base.Sorted.{place, sort_by}
use virt_who.Base.Method.{success}
use virt_who.Report.{Guest, GuestDict, guest_dict, sorted_guests, Hypervisor, hypervisor_dict}
use virt_who.Virt.Fakevirt.{
  document, process_guests, process_hypervisor, process_hypervisors, read_host_guest_mapping,
  guest_doc, hypervisor_doc,
}

-- A hypervisor with its guests in the order of their uuids.
abbrev pub in_order : Hypervisor → Hypervisor
in_order h = record h { guest_ids = sort_by (λ (g : Guest). g.uuid) h.guest_ids }

map-place :
    (g : Guest) (gs : List Guest)
    → place (λ (d : GuestDict). d.guest_id) (guest_dict g) (map guest_dict gs)
      ≡ map guest_dict (place (λ (x : Guest). x.uuid) g gs)
unfolding place guest_dict
map-place g [] = refl
map-place g (h ∷ gs) = ground (arith, map-place g gs)

map-sort_by :
    (gs : List Guest)
    → sort_by (λ (d : GuestDict). d.guest_id) (map guest_dict gs)
      ≡ map guest_dict (sort_by (λ (x : Guest). x.uuid) gs)
unfolding sort_by
map-sort_by [] = refl
map-sort_by (g ∷ gs) =
    ap (place (λ (d : GuestDict). d.guest_id) (guest_dict g)) (map-sort_by gs)
    ∙ map-place g (sort_by (λ (x : Guest). x.uuid) gs)

process_guests-guest_doc :
    (gs : List Guest) → process_guests (map guest_doc (map guest_dict gs)) ≡ ok gs
unfolding process_guests guest_dict
process_guests-guest_doc [] = refl
process_guests-guest_doc (g ∷ gs) = ground (arith, process_guests-guest_doc gs)

process_hypervisor-hypervisor_doc :
    (h : Hypervisor) → process_hypervisor (hypervisor_doc (hypervisor_dict h)) ≡ ok (in_order h)
unfolding process_hypervisor hypervisor_dict sorted_guests
process_hypervisor-hypervisor_doc h = ground (
  arith,
  map-sort_by h.guest_ids,
  process_guests-guest_doc (sort_by (λ (x : Guest). x.uuid) h.guest_ids),
)

process_hypervisors-hypervisor_doc :
    (hs : List Hypervisor)
    → process_hypervisors (map hypervisor_doc (map hypervisor_dict hs)) ≡ ok (map in_order hs)
unfolding process_hypervisors
process_hypervisors-hypervisor_doc [] = refl
process_hypervisors-hypervisor_doc (h ∷ hs) =
    ground (arith, process_hypervisor-hypervisor_doc h, process_hypervisors-hypervisor_doc hs)

-- A file that has hypervisors as `toDict` gives them is read as these hypervisors, each with its guests
-- in the order of their uuids, and with its name and its facts or without them.
pub read_host_guest_mapping-hypervisor_doc :
    (hs : List Hypervisor)
    → read_host_guest_mapping (document (some (map hypervisor_doc (map hypervisor_dict hs))))
      ≡ success (map in_order hs)
unfolding read_host_guest_mapping
read_host_guest_mapping-hypervisor_doc hs = rw (process_hypervisors-hypervisor_doc hs) refl
