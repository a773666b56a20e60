-- ===== src/Base/Keys.antt =====
-- Python's sets of texts (`_unvalidated_keys`, `source_keys_remaining`, ...) as lists without
-- repeated members: `in`, `add`, `discard`, `difference_update`.
use Prim.Native.String.{String}
use mathlib.Core.Path.{◌≡◌, refl}
use mathlib.Core.Bool.{Bool, true, false, not, ◌||◌, ◌&&◌}
use mathlib.Core.List.{List, [], ◌∷◌, ◌++◌}
use native.Mathlib.Omega.{arith}
use virt_who.Base.Tests.{◌==◌, string_eq, if◌then◌else◌, same_text}
use virt_who.Base.Lists.{select, is_empty}

abbrev pub Keys : Type 0
Keys = List String

unfoldable pub contains : Keys → String → Bool
contains [] k = false
contains (x ∷ xs) k = x == k || contains xs k

unfoldable pub add : String → Keys → Keys
unfolding contains
add k xs = if contains xs k then xs else xs ++ (k ∷ [])

unfoldable pub discard : String → Keys → Keys
discard k [] = []
discard k (x ∷ xs) = let rest = discard k xs in if x == k then rest else x ∷ rest

-- `xs.difference_update(ys)`
unfoldable pub difference : Keys → Keys → Keys
unfolding contains
difference xs ys = select (λ x. not (contains ys x)) xs

-- `xs.update(ys)`
unfoldable pub union : Keys → Keys → Keys
unfolding add
union xs [] = xs
union xs (y ∷ ys) = union (add y xs) ys

pub contains-append :
    (xs ys : Keys) (k : String) → contains (xs ++ ys) k ≡ (contains xs k || contains ys k)
unfolding contains
contains-append [] ys k = refl
contains-append (x ∷ xs) ys k = ground (arith, contains-append xs ys k)

pub contains-add :
    (j : String) (xs : Keys) (k : String) → contains (add j xs) k ≡ (j == k || contains xs k)
unfolding add contains
contains-add j xs k = ground (arith, contains-append xs (j ∷ []) k, same_text j k)

pub contains-discard :
    (j : String) (xs : Keys) (k : String)
    → contains (discard j xs) k ≡ (if j == k then false else contains xs k)
unfolding discard contains
contains-discard j [] k = ground arith
contains-discard j (x ∷ xs) k =
    ground (arith, contains-discard j xs k, same_text x j, same_text x k, same_text j k)

pub contains-difference :
    (xs ys : Keys) (k : String)
    → contains (difference xs ys) k ≡ (contains xs k && not (contains ys k))
unfolding difference contains
contains-difference [] ys k = refl
contains-difference (x ∷ xs) ys k = ground (arith, contains-difference xs ys k, same_text x k)

pub contains-union :
    (xs ys : Keys) (k : String) → contains (union xs ys) k ≡ (contains xs k || contains ys k)
unfolding union contains
contains-union xs [] k = ground arith
contains-union xs (y ∷ ys) k = ground (arith, contains-union (add y xs) ys k, contains-add y xs k)

pub is_empty_of_none : (xs : Keys) → ((k : String) → contains xs k ≡ false) → is_empty xs ≡ true
unfolding contains
is_empty_of_none [] h = refl
is_empty_of_none (x ∷ xs) h = ground (arith, h x, same_text x x)

pub not-is_empty_of : (xs : Keys) (k : String) → contains xs k ≡ true → is_empty xs ≡ false
unfolding contains
not-is_empty_of [] k h = cc
not-is_empty_of (x ∷ xs) k h = refl

pub contains-empty : (xs : Keys) (k : String) → is_empty xs ≡ true → contains xs k ≡ false
unfolding contains
contains-empty [] k h = refl
contains-empty (x ∷ xs) k h = cc
