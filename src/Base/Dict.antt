-- ===== src/Base/Dict.antt =====
-- Python's dicts with text keys, in insertion order.
use mathlib.Core.Path.{◌≡◌, refl}
use mathlib.Core.Bool.{Bool, true, false, ◌&&◌}
use mathlib.Core.Option.{Option, none, some}
use mathlib.Core.List.{List, [], ◌∷◌}
use native.Mathlib.Omega.{arith}
use Prim.Native.String.{String}
use virt_who.Base.Tests.{◌==◌, string_eq, if◌then◌else◌, same_text}
use virt_who.Base.Keys.{Keys, contains}
use virt_who.Base.Lists.{is_empty}

abbrev pub Dict {ℓ} : Type ℓ → Type ℓ
Dict V = List (String × V)

abbrev pub is_some {ℓ} : {A : Type ℓ} → Option A → Bool
is_some none = false
is_some (some a) = true

abbrev pub get_or {ℓ} : {A : Type ℓ} → Option A → A → A
get_or none d = d
get_or (some a) d = a

module _ {ℓ} {V : Type ℓ} where
  -- `d.get(k)`; where the code subscripts, `none` is its `KeyError`.
  unfoldable pub lookup : String → Dict V → Option V
  lookup k [] = none
  lookup k ((j, v) ∷ d) = if j == k then some v else lookup k d

  -- `d[k] = v`: a key that is there keeps its place.
  unfoldable pub insert : String → V → Dict V → Dict V
  insert k v [] = (k, v) ∷ []
  insert k v ((j, w) ∷ d) = if j == k then (k, v) ∷ d else (j, w) ∷ insert k v d

  -- `del d[k]`, `d.pop(k)`
  unfoldable pub erase : String → Dict V → Dict V
  erase k [] = []
  erase k ((j, w) ∷ d) = let rest = erase k d in if j == k then rest else (j, w) ∷ rest

  unfoldable pub keys : Dict V → Keys
  keys [] = []
  keys ((j, w) ∷ d) = j ∷ keys d

  -- `k in d`
  abbrev pub has : String → Dict V → Bool
  has k d = is_some (lookup k d)

  -- `d.update(e)`
  unfoldable pub update : Dict V → Dict V → Dict V
  update d [] = d
  update d ((j, w) ∷ e) = update (insert j w d) e

  pub lookup-insert :
      (k j : String) (v : V) (d : Dict V)
      → lookup j (insert k v d) ≡ (if k == j then some v else lookup j d)
  unfolding lookup insert
  lookup-insert k j v [] = refl
  lookup-insert k j v ((i, w) ∷ d) =
      ground (arith, same_text k j, same_text i k, same_text i j, lookup-insert k j v d)

  pub lookup-erase :
      (k j : String) (d : Dict V) → lookup j (erase k d) ≡ (if k == j then none else lookup j d)
  unfolding lookup erase
  lookup-erase k j [] = ground arith
  lookup-erase k j ((i, w) ∷ d) =
      ground (arith, same_text k j, same_text i k, same_text i j, lookup-erase k j d)

  pub contains-keys : (d : Dict V) (k : String) → contains (keys d) k ≡ has k d
  unfolding lookup keys contains
  contains-keys [] k = refl
  contains-keys ((j, w) ∷ d) k = ground (arith, contains-keys d k)

  abbrev pub NodupKeys : Dict V → Type 0
  NodupKeys [] = Unit
  NodupKeys ((k, _) ∷ d) = (has k d ≡ false) × NodupKeys d

  pub insert-NodupKeys : (k : String) (v : V) (d : Dict V) → NodupKeys d → NodupKeys (insert k v d)
  unfolding insert lookup
  insert-NodupKeys k v [] u = (refl, tt)
  insert-NodupKeys k v ((j, w) ∷ d) u =
      ground
        (arith, insert-NodupKeys k v d u.1, lookup-insert k j v d, same_text j k, same_text k j)

  -- The first of the two that is there.
  abbrev pub first_of : Option V → Option V → Option V
  first_of none b = b
  first_of (some a) b = some a

  pub lookup-update :
      (j : String) (d e : Dict V)
      → NodupKeys e
      → lookup j (update d e) ≡ first_of (lookup j e) (lookup j d)
  unfolding lookup update
  lookup-update j d [] distinct = refl
  lookup-update j d ((k, v) ∷ e) distinct = ground (
    arith,
    same_text k j,
    distinct.0,
    lookup-update j (insert k v d) e distinct.1,
    lookup-insert k j v d,
  )

  pub is_empty-insert : (k : String) (w : V) (d : Dict V) → is_empty (insert k w d) ≡ false
  unfolding insert
  is_empty-insert k w [] = refl
  is_empty-insert k w ((j, v) ∷ d) = ground arith

  pub is_empty-update : (d e : Dict V) → is_empty (update d e) ≡ is_empty d && is_empty e
  unfolding update
  is_empty-update d [] = ground arith
  is_empty-update d ((k, v) ∷ e) =
      ground (arith, is_empty-update (insert k v d) e, is_empty-insert k v d)

  pub update-NodupKeys : (d e : Dict V) → NodupKeys d → NodupKeys (update d e)
  unfolding update
  update-NodupKeys d [] u = u
  update-NodupKeys d ((k, v) ∷ e) u = update-NodupKeys (insert k v d) e (insert-NodupKeys k v d u)

  pub erase-NodupKeys : (k : String) (d : Dict V) → NodupKeys d → NodupKeys (erase k d)
  unfolding erase
  erase-NodupKeys k [] u = u
  erase-NodupKeys k ((j, w) ∷ d) u =
      ground (arith, u.0, erase-NodupKeys k d u.1, lookup-erase k j d, same_text k j)

pub ruleset dict_laws = (lookup-insert, lookup-erase)
