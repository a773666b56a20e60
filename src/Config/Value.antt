-- ===== src/Config/Value.antt =====
-- The values of options in virtwho/config.py: texts from the parsers, and what validation makes of
-- them (`str_to_bool`, `non_empty_string`, `int`).
use Prim.Native.Char.{code}
use mathlib.Core.Option
use virt_who.Base.{
  ℕ, zero, suc, ◌+◌, ◌*◌, ◌-◌, String, ◌≡◌, refl, Bool, true, false, not, ◌&&◌, ◌||◌, Option, none,
  some, List, [], ◌∷◌, ltb, leb, nat_eq, if◌then◌else◌, any, is_empty, ◌==◌, string_eq, Result, ok,
  raised, value_error, type_error,
}
use virt_who.Base.Chars.{Chars, chars, is_char, is_space, strip, lower_is}

-- `negsuc n` is -(n + 1).
pub data ℤ : Type 0 where
  pos : ℕ → ℤ
  negsuc : ℕ → ℤ

-- An item of a list: a text, or a number for one that is none.
pub data Item : Type 0 where
  text_item : String → Item
  number_item : ℤ → Item

pub data Value : Type 0 where
  none_value : Value
  not_set : Value
  bool : Bool → Value
  int : ℤ → Value
  str : String → Value
  list : List Item → Value

-- Python's `==` on these: `True == 1` and `False == 0`.
abbrev pub bool_int : Bool → ℤ
bool_int true = pos 1
bool_int false = pos 0

unfoldable pub int_eq : ℤ → ℤ → Bool
int_eq (pos m) (pos n) = nat_eq m n
int_eq (negsuc m) (negsuc n) = nat_eq m n
int_eq _ _ = false

abbrev pub is_text : Item → Bool
is_text (text_item s) = true
is_text (number_item n) = false

abbrev pub item_eq : Item → Item → Bool
item_eq (text_item s) (text_item t) = s == t
item_eq (number_item m) (number_item n) = int_eq m n
item_eq _ _ = false

unfoldable pub list_eq : List Item → List Item → Bool
list_eq [] [] = true
list_eq (x ∷ xs) (y ∷ ys) = item_eq x y && list_eq xs ys
list_eq _ _ = false

unfoldable pub value_eq : Value → Value → Bool
unfolding int_eq list_eq
value_eq none_value none_value = true
value_eq not_set not_set = true
value_eq (bool a) (bool b) = int_eq (bool_int a) (bool_int b)
value_eq (bool a) (int n) = int_eq (bool_int a) n
value_eq (int m) (bool b) = int_eq m (bool_int b)
value_eq (int m) (int n) = int_eq m n
value_eq (str s) (str t) = s == t
value_eq (list xs) (list ys) = list_eq xs ys
value_eq _ _ = false

-- `bool(value)`: what a test of the value takes it for. `NotSetSentinel` is a class.
unfoldable pub truthy : Value → Bool
truthy none_value = false
truthy not_set = true
truthy (bool b) = b
truthy (int (pos n)) = not (nat_eq n 0)
truthy (int (negsuc n)) = true
truthy (str s) = not (is_empty (chars s))
truthy (list xs) = not (is_empty xs)

unfoldable pub str_to_bool : Value → Result Bool
str_to_bool (bool b) = ok b
str_to_bool (str s) =
    let word = strip is_space (chars s) in
    if any (λ w. lower_is word (chars w)) ("yes" ∷ "true" ∷ "on" ∷ "1" ∷ [])
    then ok true
    else if any (λ w. lower_is word (chars w)) ("no" ∷ "false" ∷ "off" ∷ "0" ∷ [])
    then ok false
    else raised value_error
str_to_bool _ = raised value_error

unfoldable pub non_empty_string : Value → Result String
non_empty_string (str s) = if is_empty (chars s) then raised value_error else ok s
non_empty_string _ = raised type_error

-- The digits of `int(text)`: an underscore may stand between two of them. `after` says that the
-- character before was a digit. Digits outside ASCII, which Python reads too, are refused here.
unfoldable pub digits : Chars → Bool → ℕ → Option ℕ
digits [] after n = if after then some n else none
digits (c ∷ cs) after n =
    let d = code c in
    let is_digit = leb b'0' d && leb d b'9' in
    let rest = digits cs is_digit (if is_digit then n * 10 + (d - b'0') else n) in
    if is_digit || is_char b'_' c && after then rest else none

negate : ℕ → ℤ
negate zero = pos 0
negate (suc n) = negsuc n

signed : Chars → Option ℤ
unfolding digits negate
signed [] = none
signed (c ∷ cs) =
    if is_char b'-' c
    then Option.map negate (digits cs false 0)
    else if is_char b'+' c
    then Option.map pos (digits cs false 0)
    else Option.map pos (digits (c ∷ cs) false 0)

-- `int(value)`
unfoldable pub to_int : Value → Result ℤ
unfolding signed
to_int (bool b) = ok (bool_int b)
to_int (int n) = ok n
to_int (str s) = elim (signed (strip is_space (chars s))) [
  | none ↦ raised value_error
  | some n ↦ ok n
]
to_int _ = raised type_error

-- `n < m` for a bound `m` that is not negative.
abbrev pub below : ℤ → ℕ → Bool
below (pos n) m = ltb n m
below (negsuc n) m = true

to_int_runs :
    (to_int (str " -1_200\n") ≡ ok (negsuc 1199)) × (to_int (str "60s") ≡ raised value_error)
unfolding to_int strip is_space
to_int_runs = (refl, refl)

str_to_bool_runs :
    (str_to_bool (str " Yes ") ≡ ok true) × (str_to_bool (str "maybe") ≡ raised value_error)
unfolding str_to_bool strip is_space lower_is
str_to_bool_runs = (refl, refl)
