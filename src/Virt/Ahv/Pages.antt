-- ===== src/Virt/Ahv/Pages.antt =====
-- `AhvInterface3.get_vm_entities` of virtwho/virt/ahv/ahv_interface.py, by what each call gives.
pub mod Gathered
use virt_who.Base.{ℕ, zero, suc, ◌+◌, Option, none, some, List, [], ◌∷◌, ◌++◌}
use virt_who.Base.Dict.{get_or}

-- An answer: `data["entities"]` and `data["metadata"]["length"]`, each key if it is there.
pub record Page {ℓ} (A : Type ℓ) : Type ℓ where
  pub entities : Option (List A)
  pub metadata : Option (Option ℕ)

abbrev pub num_of_requested_vms : ℕ
num_of_requested_vms = 20

module _ {ℓ} {A : Type ℓ} (answer : ℕ → Option (Page A)) where
  -- The loop, on fuel: by the length that is added to the offset, the offset of the next call, and
  -- the entities so far. The length that a call asks for stays the same.
  unfoldable pub gather : ℕ → ℕ → ℕ → List A → Option (List A)
  gather zero length offset vm_entities = none
  gather (suc fuel) length offset vm_entities = elim (answer offset) [
    | none ↦ some vm_entities
    | some page ↦ elim page.entities [
      | none ↦ some vm_entities
      | some [] ↦ some vm_entities
      | some (e ∷ es) ↦ elim page.metadata [
        | none ↦ some (vm_entities ++ (e ∷ es))
        | some given ↦
            gather fuel (get_or given length) (offset + get_or given length)
              (vm_entities ++ (e ∷ es))
      ]
    ]
  ]

  -- `get_vm_entities()`
  unfoldable pub get_vm_entities : ℕ → Option (List A)
  unfolding gather
  get_vm_entities fuel = gather fuel num_of_requested_vms 0 []
