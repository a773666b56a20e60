-- ===== src/Config/Methods/Bounds.antt =====
-- The interval that validation leaves.
use virt_who.Base.{
  ℕ, ◌≤◌, String, ◌≡◌, refl, ◌∙◌, ap, true, false, some, List, [], ◌∷◌, ◌⊎◌, inl, inr, ok, arith,
  same_text_self, Bool-cases, string_eq,
}
use virt_who.Base.Dict.{Dict, lookup, insert, lookup-insert}
use virt_who.Config.Value.{Value, int, pos, negsuc, ℤ, to_int, below}
use virt_who.Config.Section.{Section, Message, warning, about}
use virt_who.Config.Methods.{
  Validator, Outcome, assign, minimum_send_interval, default_interval, interval_of, check_interval,
}

lookup-insert_self : (k : String) (v : Value) (d : Dict Value) → lookup k (insert k v d) ≡ some v
lookup-insert_self k v d = lookup-insert k k v d ∙ rw (same_text_self k)

-- A section whose interval is the given number.
pub record HasInterval (o : Outcome) (n : ℕ) : Type 0 where
  pub section : Section Validator
  pub messages : List Message
  pub returned : o ≡ ok (section, messages)
  pub interval : lookup "interval" section.values ≡ some (int (pos n))
  pub at_least : minimum_send_interval ≤ n

interval-low :
    (v : Value) (s : Section Validator)
    → lookup "interval" s.values ≡ some v
    → below (interval_of v) minimum_send_interval ≡ true
    → HasInterval (check_interval "interval" s) default_interval
unfolding check_interval
interval-low v s e low = record {
  section =
      assign "interval" (int (pos default_interval)) (assign "interval" (int (interval_of v)) s);
  messages =
      record {
        level = warning;
        body = about "Interval value can't be lower, default value will be used" "interval";
      }
      ∷ [];
  returned = rw (e, check_interval, low);
  interval = lookup-insert_self "interval" _ _;
  at_least = omega arith;
}

-- The number that an interval of at least a minute was given by.
not_below : (r : ℤ) → below r minimum_send_interval ≡ false → (n : ℕ) × (r ≡ pos n) × (60 ≤ n)
not_below (pos n) h = (n, refl, ground arith)
not_below (negsuc n) h = cc

interval_of-ok : (v : Value) (n : ℕ) → interval_of v ≡ pos n → 60 ≤ n → to_int v ≡ ok (pos n)
unfolding interval_of
interval_of-ok v n e h = ground arith

interval-high :
    (v : Value) (s : Section Validator) (n : ℕ)
    → lookup "interval" s.values ≡ some v
    → below (interval_of v) minimum_send_interval ≡ false
    → interval_of v ≡ pos n
    → 60 ≤ n
    → HasInterval (check_interval "interval" s) n
unfolding check_interval
interval-high v s n e high exact h = record {
  section = assign "interval" (int (interval_of v)) s;
  messages = [];
  returned = rw (e, check_interval, high);
  interval = lookup-insert_self "interval" _ _ ∙ ap (λ r. some (int r)) exact;
  at_least = h;
}

-- Whatever was given for the interval, its validation returns a section whose interval is a number
-- of at least sixty seconds: the number given, or the default of an hour.
pub check_interval-bounds :
    (v : Value) (s : Section Validator)
    → lookup "interval" s.values ≡ some v
    → (n : ℕ) × HasInterval (check_interval "interval" s) n
      × ((n ≡ default_interval) ⊎ (to_int v ≡ ok (pos n)))
check_interval-bounds v s e = elim (Bool-cases (below (interval_of v) minimum_send_interval)) [
  | inl low ↦ (default_interval, interval-low v s e low, inl refl)
  | inr high ↦
      let (n, exact, h) = not_below (interval_of v) high in
      (n, interval-high v s n e high exact h, inr (interval_of-ok v n exact h))
]
