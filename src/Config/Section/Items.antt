-- ===== src/Config/Section/Items.antt =====
-- Assignment and deletion of the options of a `ConfigSection`.
use virt_who.Base.{
  String, ◌≡◌, refl, ◌∙◌, true, false, none, some, List, [], ◌∷◌, if◌then◌else◌, arith, ◌==◌,
  string_eq, same_text, same_text_self, Bool-cases, inl, inr, ◌⊎◌, Option, nat_eq_iff,
}
use virt_who.Base.Keys.{contains, contains-add, not-is_empty_of}
use virt_who.Base.Dict.{lookup, lookup-insert}
use virt_who.Config.Value.{
  Value, value_eq, none_value, not_set, bool, int, str, list, pos, negsuc, ℤ, list_eq, int_eq, Item,
  text_item, number_item, item_eq,
}
use virt_who.Config.Section.{
  Section, needs_validation, state_of, update_state, mark, changes, set_item,
}

int_eq_self : (n : ℤ) → int_eq n n ≡ true
unfolding int_eq
int_eq_self (pos n) = (nat_eq_iff n n).1 refl
int_eq_self (negsuc n) = (nat_eq_iff n n).1 refl

item_eq_self : (x : Item) → item_eq x x ≡ true
item_eq_self (text_item s) = same_text_self s
item_eq_self (number_item n) = int_eq_self n

list_eq_self : (xs : List Item) → list_eq xs xs ≡ true
unfolding list_eq
list_eq_self [] = refl
list_eq_self (x ∷ xs) = rw (item_eq_self x) (list_eq_self xs)

pub value_eq_self : (v : Value) → value_eq v v ≡ true
unfolding value_eq
value_eq_self none_value = refl
value_eq_self not_set = refl
value_eq_self (bool true) = refl
value_eq_self (bool false) = refl
value_eq_self (int n) = int_eq_self n
value_eq_self (str s) = same_text_self s
value_eq_self (list xs) = list_eq_self xs

-- A value that `==` takes for `v`.
abbrev pub Reads : Option Value → Value → Type 0
Reads none v = ⊥
Reads (some w) v = value_eq w v ≡ true

module _ {M : Type 0} where
  -- The state shown is the one that the tracking sets give.
  abbrev pub IsTracked : Section M → Type 0
  IsTracked s = s.state ≡ state_of s

  marked_state :
      (s : Section M) (k : String)
      → contains s.unvalidated_keys k ≡ true
      → state_of s ≡ needs_validation
  unfolding state_of
  marked_state s k h = rw (not-is_empty_of s.unvalidated_keys k h)

  set_item-IsTracked :
      (k : String) (v : Value) (s : Section M) → IsTracked s → IsTracked (set_item k v s)
  unfolding set_item update_state state_of
  set_item-IsTracked k v s tracked = ground arith

  unvalidated-set_item :
      (k : String) (v : Value) (s : Section M) (j : String)
      → contains (set_item k v s).unvalidated_keys j
        ≡ (if k == j then true else contains s.unvalidated_keys j)
  unfolding set_item
  unvalidated-set_item k v s j = ground (arith, contains-add k s.unvalidated_keys j, same_text k j)

  pub values-set_item :
      (k : String) (v : Value) (s : Section M) (j : String)
      → (k == j) ≡ false
      → lookup j (set_item k v s).values ≡ lookup j s.values
  unfolding set_item mark
  values-set_item k v s j other = ground (arith, lookup-insert k j v s.values)

  lookup-set_item :
      (k : String) (v : Value) (s : Section M)
      → lookup k (set_item k v s).values ≡ (if changes k v s then some v else lookup k s.values)
  unfolding set_item
  lookup-set_item k v s = ground (arith, lookup-insert k k v s.values, same_text_self k)

  Reads-unchanged :
      (k : String) (v : Value) (s : Section M) → changes k v s ≡ false → Reads (lookup k s.values) v
  unfolding changes
  Reads-unchanged k v s h = ground arith

  Reads-set_item :
      (k : String) (v : Value) (s : Section M) → Reads (lookup k (set_item k v s).values) v
  Reads-set_item k v s = rw lookup-set_item (elim (Bool-cases (changes k v s)) [
    | inl new ↦ rw new (value_eq_self v)
    | inr old ↦ rw old (Reads-unchanged k v s old)
  ])

  -- After an assignment, in a section whose state is the one that its sets of keys give: the option
  -- reads as a value equal to the one assigned and has yet to be validated, every other option has
  -- the value and the mark that it had, and the section needs validation.
  pub set_item_lem :
      (k : String) (v : Value) (s : Section M)
      → IsTracked s
      → Reads (lookup k (set_item k v s).values) v
        × ((set_item k v s).state ≡ needs_validation)
        × ((j : String)
            → contains (set_item k v s).unvalidated_keys j
              ≡ (if k == j then true else contains s.unvalidated_keys j))
        × ((j : String)
            → ((k == j) ≡ true) ⊎ (lookup j (set_item k v s).values ≡ lookup j s.values))
  set_item_lem k v s tracked = (
    Reads-set_item k v s,
    set_item-IsTracked k v s tracked
        ∙ marked_state (set_item k v s) k (unvalidated-set_item k v s k ∙ rw (same_text_self k)),
    unvalidated-set_item k v s,
    λ j. elim (Bool-cases (k == j)) [
      | inl same ↦ inl same
      | inr other ↦ inr (values-set_item k v s j other)
    ],
  )
