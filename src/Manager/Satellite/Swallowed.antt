-- ===== src/Manager/Satellite/Swallowed.antt =====
-- Faults of `virt_notify` that the manager passes over.
use virt_who.Base.{String, ◌≡◌, refl, false, some, List, [], ◌∷◌, arith, All}
use virt_who.Base.Dict.{Dict, lookup}
use virt_who.Base.Method.{success}
use virt_who.Config.Value.{ℤ, negsuc, int_eq}
use virt_who.Report.{Report, finished, Hypervisor, Association, host_guest}
use virt_who.Report.Filter.{Matching, association}
use virt_who.Manager.Satellite.{
  fault_code, raises, Rpc, virt_notify, SystemFile, pickled, Satellite, Link,
}
use virt_who.Manager.Satellite.Register.{load_hypervisor, read_or_register}
use virt_who.Manager.Satellite.Notify.{
  assemble_plan, after_notify, send_hypervisor, send_each, check_in_satellite,
}

-- A server that refuses every plan with a fault, and not with the one of a deleted system.
pub record Refuses (satellite : Satellite) : Type 0 where
  pub code : ℤ
  pub other : int_eq code (negsuc 8) ≡ false
  pub answer : (calls : List Rpc) → satellite.answer_notify calls ≡ raises (fault_code code)

module _ (satellite : Satellite) where
  -- The system of a hypervisor is in its file, with an id.
  pub record IsKnown (files : Dict SystemFile) (h : Hypervisor) : Type 0 where
    pub id : String
    pub file : lookup h.hypervisor_id files ≡ some (pickled (some (record { system_id = some id })))

  send_hypervisor-swallowed :
      (h : Hypervisor) (s : Link)
      → Refuses satellite
      → satellite.force_register ≡ false
      → (known : IsKnown s.files h)
      → send_hypervisor satellite h s ≡ (
        success tt,
        record s {
          calls = virt_notify known.id (assemble_plan satellite.hypervisor_type h) ∷ s.calls;
        },
      )
  unfolding send_hypervisor load_hypervisor read_or_register after_notify
  send_hypervisor-swallowed h s refuses unforced known = ground (
    arith,
    unforced,
    known.file,
    refuses.other,
    refuses.answer (virt_notify known.id (assemble_plan satellite.hypervisor_type h) ∷ s.calls),
  )

  -- The calls of a loop that sends each plan once, behind earlier calls.
  abbrev pub notices :
      (files : Dict SystemFile) (hs : List Hypervisor)
      → All (IsKnown files) hs
      → List Rpc
      → List Rpc
  notices files [] known calls = calls
  notices files (h ∷ hs) (first, rest) calls =
      notices files hs rest
        (virt_notify first.id (assemble_plan satellite.hypervisor_type h) ∷ calls)

  send_each-swallowed :
      (hs : List Hypervisor) (s : Link)
      → Refuses satellite
      → satellite.force_register ≡ false
      → (known : All (IsKnown s.files) hs)
      → send_each satellite hs s
        ≡ (success tt, record s { calls = notices s.files hs known s.calls })
  unfolding send_each
  send_each-swallowed [] s refuses unforced known = refl
  send_each-swallowed (h ∷ hs) s refuses unforced known =
      let sent = virt_notify known.0.id (assemble_plan satellite.hypervisor_type h) in
      let next = record s { calls = sent ∷ s.calls } in
      ground (
        arith,
        send_hypervisor-swallowed h s refuses unforced known.0,
        send_each-swallowed hs next refuses unforced known.1,
      )

  -- A server that answers every plan with a fault, other than that of a deleted system, takes nothing,
  -- and still the check-in of a report whose hypervisors have their systems in files returns, after
  -- one call for each hypervisor, and the report is finished.
  pub check_in_satellite-swallowed :
      (matching : Matching) (report : Report) (r : Association) (s : Link)
      → Refuses satellite
      → satellite.force_register ≡ false
      → report.content ≡ host_guest r
      → (known : All (IsKnown s.files) (association matching r))
      → check_in_satellite satellite matching report s ≡ (
        success (record report { state = finished }),
        record s { calls = notices s.files (association matching r) known s.calls },
      )
  unfolding check_in_satellite
  check_in_satellite-swallowed matching report r s refuses unforced content known =
      ground (arith, content, send_each-swallowed (association matching r) s refuses unforced known)
