-- ===== src/Base/Raised.antt =====
-- The exceptions that the modelled code raises, and results that may be one.
use mathlib.Core.Path.{◌≡◌, refl}
use mathlib.Core.Logic.{◌⊎◌, inl, inr}

pub data Exception : Type 0 where
  key_error value_error type_error index_error attribute_error io_error : Exception

pub data Result {ℓ} (T : Type ℓ) : Type ℓ where
  raised : Exception → Result T
  ok : T → Result T

infixl 5 ◌>>=◌
abbrev pub ◌>>=◌ {ℓ κ} : {T : Type ℓ} {U : Type κ} → Result T → (T → Result U) → Result U
raised e >>= next = raised e
ok t >>= next = next t

-- Inversion of a block that returned.
pub >>=-eq-ok {ℓ κ} :
    {T : Type ℓ} {U : Type κ} (r : Result T) (next : T → Result U) {u : U}
    → (r >>= next) ≡ ok u
    → (t : T) × (r ≡ ok t) × (next t ≡ ok u)
>>=-eq-ok (raised e) next returned = cc
>>=-eq-ok (ok t) next returned = (t, refl, returned)

pub Result-cases {ℓ} :
    {T : Type ℓ} (r : Result T) → ((x : Exception) × (r ≡ raised x)) ⊎ ((t : T) × (r ≡ ok t))
Result-cases (raised x) = inl (x, refl)
Result-cases (ok t) = inr (t, refl)
