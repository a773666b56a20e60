-- ===== src/Datastore/History.antt =====
-- Which object a destination gets, and what it holds, whatever the threads have done before.
use virt_who.Base.{
  ℕ, zero, suc, ◌+◌, String, ◌≡◌, Option, none, some, List, [], ◌∷◌, nat_eq, if◌then◌else◌, ◌==◌,
  string_eq,
}
use virt_who.Base.Dict.{lookup}
use virt_who.Datastore.{Heap, Step, puts, gets, changes}

module _ {V : Type 0} where
  abbrev pub object_at : ℕ → List V → Option V
  object_at n [] = none
  object_at zero (v ∷ vs) = some v
  object_at (suc n) (v ∷ vs) = object_at n vs

  -- What one step makes of the number and the content of the object under a key, by the number of
  -- objects that were put before: a `put` of the key replaces it, and a change of that object, not of
  -- another one nor of one that it has replaced, changes it.
  abbrev pub follow : String → ℕ → Step V → Option (ℕ × V) → Option (ℕ × V)
  follow k n (puts j v) held = if j == k then some (n, v) else held
  follow k n (gets j default) held = held
  follow k n (changes m change) none = none
  follow k n (changes m change) (some (r, v)) = some (r, if nat_eq m r then change v else v)

  abbrev pub objects_by : ℕ → Step V → ℕ
  objects_by n (puts j v) = n + 1
  objects_by n (gets j default) = n
  objects_by n (changes m change) = n

  -- The object under a key behind all steps.
  abbrev pub followed : String → ℕ → List (Step V) → Option (ℕ × V) → Option (ℕ × V)
  followed k n [] held = held
  followed k n (s ∷ steps) held = followed k (objects_by n s) steps (follow k n s held)

  abbrev Holds : String → Heap V → Option (ℕ × V) → Type 0
  Holds k h none = lookup k h.store ≡ none
  Holds k h (some (r, v)) = (lookup k h.store ≡ some r) × (object_at r h.objects ≡ some v)

  abbrev pub no_objects : Heap V
  no_objects = record { store = []; objects = [] }
