-- ===== src/Manager/Mapping.antt =====
-- `_hypervisor_mapping`: a report's hypervisors as the server takes them, in both of its interfaces.
pub mod Last
use virt_who.Base.{String, Bool, true, false, List, [], ◌∷◌, ◌++◌, map, if◌then◌else◌}
use virt_who.Base.Keys.{Keys, contains}
use virt_who.Base.Dict.{Dict, insert}
use virt_who.Report.{Guest, GuestDict, guest_dict, Hypervisor, HypervisorDict, hypervisor_dict}

-- `{'hypervisors': [...]}`, or the guests by the id of their hypervisor.
pub data HostMapping : Type 0 where
  async_mapping : List HypervisorDict → HostMapping
  sync_mapping : Dict (List GuestDict) → HostMapping

abbrev pub guest_dicts : Hypervisor → List GuestDict
guest_dicts h = map guest_dict h.guest_ids

-- The ids that the warning names, which both loops give in the same way.
unfoldable pub warned : List Hypervisor → Keys → Keys
unfolding contains
warned [] ids_seen = []
warned (h ∷ hs) ids_seen =
    let rest = warned hs (ids_seen ++ (h.hypervisor_id ∷ [])) in
    if contains ids_seen h.hypervisor_id then h.hypervisor_id ∷ rest else rest

-- The loop of the interface without jobs.
unfoldable pub collect_guests : List Hypervisor → Dict (List GuestDict) → Dict (List GuestDict)
collect_guests [] serialized_mapping = serialized_mapping
collect_guests (h ∷ hs) serialized_mapping =
    collect_guests hs (insert h.hypervisor_id (guest_dicts h) serialized_mapping)

-- `_hypervisor_mapping(report, is_async)`, with the warnings.
unfoldable pub hypervisor_mapping : Bool → List Hypervisor → HostMapping × Keys
unfolding warned collect_guests
hypervisor_mapping true hs = (async_mapping (map hypervisor_dict hs), warned hs [])
hypervisor_mapping false hs = (sync_mapping (collect_guests hs []), warned hs [])
