-- ===== src/Base/Sorted.antt =====
-- `sorted` on texts, which keeps the members.
use Prim.Native.String.{String, compare}
use mathlib.Core.Path.{◌≡◌, refl, ◌∙◌}
use mathlib.Core.Bool.{◌||◌}
use mathlib.Core.List.{List, [], ◌∷◌}
use native.Mathlib.Omega.{arith}
use text.Mathlib.Text.{is_le}
use virt_who.Base.Tests.{◌==◌, string_eq, if◌then◌else◌}
use virt_who.Base.Keys.{Keys, contains}

module _ {ℓ} {A : Type ℓ} (key : A → String) where
  unfoldable pub place : A → List A → List A
  place x [] = x ∷ []
  place x (y ∷ ys) = if is_le (compare (key x) (key y)) then x ∷ y ∷ ys else y ∷ place x ys

  -- `sorted(xs, key=key)`: stable.
  unfoldable pub sort_by : List A → List A
  unfolding place
  sort_by [] = []
  sort_by (x ∷ xs) = place x (sort_by xs)

unfoldable pub sorted : Keys → Keys
unfolding sort_by
sorted = sort_by (λ k. k)

contains-place :
    (x : String) (xs : Keys) (k : String)
    → contains (place (λ j. j) x xs) k ≡ (x == k || contains xs k)
unfolding place contains
contains-place x [] k = refl
contains-place x (y ∷ ys) k = ground (arith, contains-place x ys k)

pub contains-sorted : (xs : Keys) (k : String) → contains (sorted xs) k ≡ contains xs k
unfolding sorted contains
contains-sorted [] k = refl
contains-sorted (x ∷ xs) k =
    contains-place x (sort_by (λ j. j) xs) k ∙ ground (arith, contains-sorted xs k)
