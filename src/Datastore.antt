-- ===== src/Datastore.antt =====
-- `Datastore` of virtwho/datastore.py: what sources and destinations share, with steps that its lock
-- keeps apart.
pub mod History
pub mod Tests
use virt_who.Base.{
  ℕ, zero, suc, length, ◌++◌, String, Bool, true, false, Option, none, some, List, [], ◌∷◌, Result,
  ok, raised, key_error, if◌then◌else◌,
}
use virt_who.Base.Dict.{Dict, lookup, insert}

module _ {V : Type 0} where
  -- `self._datastore[key] = to_store` of `put(key, value)`, where the value is the copy, or a
  -- reference to it.
  unfoldable pub put : String → V → Dict V → Dict V
  put k v store = insert k v store

  -- `get(key, default)`, which gives what is stored itself, where `truthy` is the test of the default.
  unfoldable pub get : (V → Bool) → String → Option V → Dict V → Result V
  get truthy k default store = elim (lookup k store) [
    | some v ↦ ok v
    | none ↦ elim default [
      | none ↦ raised key_error
      | some d ↦ if truthy d then ok d else raised key_error
    ]
  ]

-- The objects of the program by their numbers, and the datastore, which holds references to them.
pub record Heap (V : Type 0) : Type 0 where
  pub store : Dict ℕ
  pub objects : List V

-- What the threads do, in the order in which they take the lock: a call of `put` or `get`, or a
-- change of an object that a thread has a reference to, as of a report's state.
pub data Step (V : Type 0) : Type 0 where
  puts : String → V → Step V
  gets : String → Option ℕ → Step V
  changes : ℕ → (V → V) → Step V

module _ {V : Type 0} where
  unfoldable pub change_at : ℕ → (V → V) → List V → List V
  change_at n change [] = []
  change_at zero change (v ∷ vs) = change v ∷ vs
  change_at (suc n) change (v ∷ vs) = v ∷ change_at n change vs

  -- A `put` makes a new object, the copy, and stores the reference to it.
  unfoldable pub step : Step V → Heap V → Heap V
  unfolding put change_at
  step (puts k v) h = record {
    store = put k (length h.objects) h.store;
    objects = h.objects ++ (v ∷ []);
  }
  step (gets k default) h = h
  step (changes n change) h = record h { objects = change_at n change h.objects }

  unfoldable pub run : List (Step V) → Heap V → Heap V
  unfolding step
  run [] h = h
  run (s ∷ steps) h = run steps (step s h)
