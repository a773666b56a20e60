-- ===== src/Base/Chars.antt =====
-- Texts taken apart into characters, and the character tests of `str`: `isspace`, `strip`, `lower`.
use Prim.Native.Nat.{ℕ, ◌+◌}
use Prim.Native.Char.{Char, code}
use Prim.Native.String.{String}
use mathlib.Core.Path.{◌≡◌, refl, ap}
use mathlib.Core.Bool.{Bool, true, false, ◌&&◌, ◌||◌}
use mathlib.Core.List.{List, [], ◌∷◌}
use virt_who.Base.Tests.{leb, nat_eq, if◌then◌else◌}

abbrev pub Chars : Type 0
Chars = List Char

abbrev pub chars : String → Chars
chars String.[] = []
chars (String.◌∷◌ c s) = c ∷ chars s

-- `''.join(cs)`
abbrev pub join : Chars → String
join [] = String.[]
join (c ∷ cs) = String.◌∷◌ c (join cs)

pub chars-join : (cs : Chars) → chars (join cs) ≡ cs
chars-join [] = refl
chars-join (c ∷ cs) = ap (λ r. c ∷ r) (chars-join cs)

pub join-chars : (s : String) → join (chars s) ≡ s
join-chars String.[] = refl
join-chars (String.◌∷◌ c s) = ap (λ r. String.◌∷◌ c r) (join-chars s)

abbrev pub is_char : ℕ → Char → Bool
is_char n c = nat_eq (code c) n

-- `ch.isspace()`
unfoldable pub is_space : Char → Bool
is_space c =
    let n = code c in
    leb 9 n && leb n 13
    || leb 28 n && leb n 32
    || nat_eq n 0x85
    || nat_eq n 0xa0
    || nat_eq n 0x1680
    || leb 0x2000 n && leb n 0x200a
    || leb 0x2028 n && leb n 0x2029
    || nat_eq n 0x202f
    || nat_eq n 0x205f
    || nat_eq n 0x3000

-- `s.lstrip()` for the characters that `drops` names.
unfoldable pub strip_left : (Char → Bool) → Chars → Chars
strip_left drops [] = []
strip_left drops (c ∷ cs) = let rest = strip_left drops cs in if drops c then rest else c ∷ cs

-- `s.rstrip()`
unfoldable pub strip_right : (Char → Bool) → Chars → Chars
strip_right drops [] = []
strip_right drops (c ∷ cs) = elim (strip_right drops cs) [
  | [] ↦ if drops c then [] else c ∷ []
  | d ∷ ds ↦ c ∷ d ∷ ds
]

unfoldable pub strip : (Char → Bool) → Chars → Chars
unfolding strip_left strip_right
strip drops cs = strip_right drops (strip_left drops cs)

-- Equality with an ASCII word once both are in lower case. Of the letters of the words that the
-- code tests for, no character outside ASCII has one for its lower case.
unfoldable pub lower_code : Char → ℕ
lower_code c = let n = code c in if leb b'A' n && leb n b'Z' then n + 32 else n

unfoldable pub lower_is : Chars → Chars → Bool
unfolding lower_code
lower_is [] [] = true
lower_is (c ∷ cs) (d ∷ ds) = nat_eq (lower_code c) (code d) && lower_is cs ds
lower_is _ _ = false
