-- ===== src/Config/Methods/Typed.antt =====
-- The types that the validation methods of `GlobalSection` leave their options in.
use virt_who.Base.{
  String, ◌≡◌, refl, subst, ap, ◌∙◌, Bool, true, false, not, Option, none, some, List, [], ◌∷◌, all,
  map, select, ok, is_empty, arith, same_text, same_text_self, Option-cases, Bool-cases,
  Result-cases, inl, inr, string_eq, >>=-eq-ok,
}
use virt_who.Base.Chars.{chars}
use virt_who.Base.Dict.{lookup, insert, lookup-insert}
use virt_who.Config.Value.{
  Value, none_value, not_set, bool, int, str, list, Item, text_item, number_item, is_text, pos,
  str_to_bool, non_empty_string, below,
}
use virt_who.Config.ParseList.{parse_list}
use virt_who.Config.Section.{Section, Message, get_item, is_default}
use virt_who.Config.Methods.{
  Validator, boolean, non_empty, a_list, interval, Environment, assign, list_of, check_boolean,
  check_non_empty, check_list, check_interval, interval_of, minimum_send_interval, default_interval,
  boolean_default,
}
use virt_who.Config.Methods.Call.{call}

-- Whether a value is of the type that the options of a method have. Methods of other sections are
-- not meant.
abbrev pub is_of : Validator → Value → Bool
is_of boolean (bool b) = true
is_of non_empty (str text) = not (is_empty (chars text))
is_of a_list (list items) = all is_text items
is_of interval (int n) = true
is_of _ _ = false

-- The methods of `GlobalSection`.
abbrev pub is_global : Validator → Bool
is_global boolean = true
is_global non_empty = true
is_global a_list = true
is_global interval = true
is_global _ = false

abbrev pub reads_as : Validator → Option Value → Bool
reads_as m none = false
reads_as m (some v) = is_of m v

lookup-assigned :
    (k : String) (v : Value) (s : Section Validator) → lookup k (assign k v s).values ≡ some v
lookup-assigned k v s = lookup-insert k k v s.values ∙ rw (same_text_self k)

-- A section that a method returned by an assignment.
assigned :
    (m : Validator) (k : String) (v : Value) (s t : Section Validator)
    → assign k v s ≡ t
    → is_of m v ≡ true
    → reads_as m (lookup k t.values) ≡ true
assigned m k v s t e typed =
    subst (λ (x : Section Validator). reads_as m (lookup k x.values) ≡ true) e
      (ap (reads_as m) (lookup-assigned k v s) ∙ typed)

boolean_default-typed :
    (k : String) (s t : Section Validator) (messages : List Message) (w : Value)
    → lookup k s.defaults ≡ some w
    → boolean_default k s ≡ ok (t, messages)
    → reads_as boolean (lookup k t.values) ≡ true
unfolding boolean_default
boolean_default-typed k s t messages w d e = elim (Result-cases (str_to_bool w)) [
  | inl (x, failed) ↦ absurd (ground (arith, e, d, failed))
  | inr (b, read) ↦ assigned boolean k (bool b) s t (ground (arith, e, d, read)) refl
]

check_boolean-typed :
    (k : String) (s t : Section Validator) (messages : List Message)
    → reads_as boolean (lookup k s.defaults) ≡ true
    → check_boolean k s ≡ ok (t, messages)
    → reads_as boolean (lookup k t.values) ≡ true
unfolding check_boolean
check_boolean-typed k s t messages d e = elim (Option-cases (lookup k s.defaults)) [
  | inl undefined ↦ absurd (ground (arith, d, undefined))
  | inr (w, default) ↦ elim (Option-cases (lookup k s.values)) [
    | inl missing ↦ boolean_default-typed k s t messages w default (ground (arith, e, missing))
    | inr (v, there) ↦ elim (Result-cases (str_to_bool v)) [
      | inl (x, failed) ↦
          boolean_default-typed k s t messages w default (ground (arith, e, there, failed))
      | inr (b, read) ↦ assigned boolean k (bool b) s t (ground (arith, e, there, read)) refl
    ]
  ]
]

selected : (items : List Item) → all is_text (select is_text items) ≡ true
selected [] = refl
selected (text_item s ∷ items) = selected items
selected (number_item n ∷ items) = selected items

all_texts : (items : List String) → all is_text (map text_item items) ≡ true
all_texts [] = refl
all_texts (s ∷ items) = all_texts items

list_of-typed :
    (k : String) (v : Value) (s t : Section Validator) (messages : List Message)
    → list_of k v s ≡ ok (t, messages)
    → reads_as a_list (lookup k t.values) ≡ true
unfolding list_of
list_of-typed k (list items) s t messages e =
    assigned a_list k (list (select is_text items)) s t (ground (arith, e)) (selected items)
list_of-typed k (str text) s t messages e =
    let (items, _, made) =
      >>=-eq-ok (parse_list text) (λ items. ok (assign k (list (map text_item items)) s, [])) e in
    assigned a_list k (list (map text_item items)) s t (ground (arith, made)) (all_texts items)
list_of-typed k none_value s t messages e = assigned a_list k (list []) s t (ground (arith, e)) refl
list_of-typed k not_set s t messages e = assigned a_list k (list []) s t (ground (arith, e)) refl
list_of-typed k (bool b) s t messages e = assigned a_list k (list []) s t (ground (arith, e)) refl
list_of-typed k (int n) s t messages e = assigned a_list k (list []) s t (ground (arith, e)) refl

check_list-typed :
    (k : String) (s t : Section Validator) (messages : List Message)
    → check_list k s ≡ ok (t, messages)
    → reads_as a_list (lookup k t.values) ≡ true
unfolding check_list
check_list-typed k s t messages e = elim (Bool-cases (is_default s k)) [
  | inl default ↦ assigned a_list k (list []) s t (ground (arith, e, default)) refl
  | inr own ↦
      let (v, _, made) = >>=-eq-ok (get_item s k) (λ v. list_of k v s) (ground (arith, e, own)) in
      list_of-typed k v s t messages made
]

check_interval-typed :
    (k : String) (s t : Section Validator) (messages : List Message) (v : Value)
    → lookup k s.values ≡ some v
    → check_interval k s ≡ ok (t, messages)
    → reads_as interval (lookup k t.values) ≡ true
unfolding check_interval
check_interval-typed k s t messages v there e =
    elim (Bool-cases (below (interval_of v) minimum_send_interval)) [
      | inl low ↦ ground (
        arith,
        e,
        there,
        low,
        same_text "interval" k,
        same_text k k,
        lookup-insert "interval" k (int (pos default_interval))
            (insert k (int (interval_of v)) s.values),
        lookup-insert k k (int (interval_of v)) s.values,
      )
      | inr high ↦
          ground
            (arith, e, there, high, same_text k k, lookup-insert k k (int (interval_of v)) s.values)
    ]

text-typed : (v : Value) (text : String) → non_empty_string v ≡ ok text → is_of non_empty v ≡ true
unfolding non_empty_string
text-typed (str x) text e = ground (arith, e)
text-typed none_value text e = cc
text-typed not_set text e = cc
text-typed (bool b) text e = cc
text-typed (int n) text e = cc
text-typed (list xs) text e = cc

unchanged :
    (k : String) (s t : Section Validator) (messages : List Message) (v : Value) (text : String)
    → lookup k s.values ≡ some v
    → non_empty_string v ≡ ok text
    → check_non_empty k s ≡ ok (t, messages)
    → s ≡ t
unfolding check_non_empty
unchanged k s t messages v text there read e = ground (arith, e, there, read)

check_non_empty-typed :
    (k : String) (s t : Section Validator) (messages : List Message) (v : Value)
    → lookup k s.values ≡ some v
    → reads_as non_empty (lookup k s.defaults) ≡ true
    → check_non_empty k s ≡ ok (t, messages)
    → reads_as non_empty (lookup k t.values) ≡ true
unfolding check_non_empty
check_non_empty-typed k s t messages v there d e = elim (Option-cases (lookup k s.defaults)) [
  | inl undefined ↦ absurd (ground (arith, d, undefined))
  | inr (w, default) ↦ elim (Result-cases (non_empty_string v)) [
    | inl (x, failed) ↦
        assigned non_empty k w s t (ground (arith, e, there, failed, default))
          (ground (arith, d, default))
    | inr (text, read) ↦
        subst (λ (x : Section Validator). reads_as non_empty (lookup k x.values) ≡ true)
          (unchanged k s t messages v text there read e)
          (ap (reads_as non_empty) there ∙ text-typed v text read)
  ]
]

-- An option of `GlobalSection` that has a value, and a default of its type, is of its type when its
-- method has returned, whatever the value was: a flag is a Boolean, a list is a list of texts, the
-- interval is a number, and all others are texts that are not empty.
pub call-typed :
    (env : Environment) (m : Validator) (k : String) (v : Value) (s t : Section Validator)
    (messages : List Message)
    → is_global m ≡ true
    → lookup k s.values ≡ some v
    → reads_as m (lookup k s.defaults) ≡ true
    → call env m k s ≡ ok (t, messages)
    → reads_as m (lookup k t.values) ≡ true
unfolding call
call-typed env boolean k v s t messages g there d e = check_boolean-typed k s t messages d e
call-typed env non_empty k v s t messages g there d e =
    check_non_empty-typed k s t messages v there d e
call-typed env a_list k v s t messages g there d e = check_list-typed k s t messages e
call-typed env interval k v s t messages g there d e = check_interval-typed k s t messages v there e
call-typed env m k v s t messages g there d e = cc
