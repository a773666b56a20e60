-- ===== src/Config/ParseList/RoundTrip.antt =====
-- Lists that are written with quotes are read back by `parse_list`; its two errors.
use Prim.Native.Char.{Char}
use mathlib.Core.List.{append_assoc, append-nil}
use virt_who.Base.{
  inl, inr, Bool-cases, String, ◌≡◌, ◌≢◌, refl, sym, ap, ◌∙◌, false, ◌||◌, none, some, List, [],
  ◌∷◌, ◌++◌, arith, if◌then◌else◌, ok, raised, value_error, index_error,
}
use virt_who.Base.Chars.{Chars, chars, join, chars-join, join-chars, is_char}
use virt_who.Config.ParseList.{
  Scan, double, backslash, parse_step, parse_end, parse_loop, parse_list,
}

-- A reader's way to write items: in double quotes, with `"` and `\` behind a backslash.
pub escape : Chars → Chars
escape [] = []
escape (c ∷ cs) =
    if is_char double c || is_char backslash c then "\\" ∷ c ∷ escape cs else c ∷ escape cs

pub write_item : String → Chars → Chars
write_item item rest = "\"" ∷ (escape (chars item) ++ ("\"" ∷ rest))

pub write_items : List String → Chars → Chars
write_items [] rest = rest
write_items (x ∷ []) rest = write_item x rest
write_items (x ∷ y ∷ xs) rest = write_item x ("," ∷ write_items (y ∷ xs) rest)

abbrev quoted : List String → Chars → Scan
quoted items item = record { items = items; item = item; read_to = some double; escaped = false }

abbrev plain : List String → Chars → Scan
plain items item = record { items = items; item = item; read_to = none; escaped = false }

parse_step-ordinary :
    (c : Char) (items : List String) (item : Chars)
    → (is_char double c || is_char backslash c) ≡ false
    → parse_step c (quoted items item) ≡ quoted items (item ++ (c ∷ []))
unfolding parse_step
parse_step-ordinary c items item h = ground arith

parse_loop-escape :
    (cs rest : Chars) (items : List String) (item : Chars)
    → parse_loop (escape cs ++ rest) (quoted items item)
      ≡ parse_loop rest (quoted items (item ++ cs))
unfolding parse_loop escape
parse_loop-escape [] rest items item = rw append-nil
parse_loop-escape (c ∷ cs) rest items item =
    elim (Bool-cases (is_char double c || is_char backslash c)) [
      | inl special ↦ rw special (parse_loop-escape cs rest items _ ∙ rw append_assoc)
      | inr ordinary ↦ rw ordinary (
          ap (parse_loop (escape cs ++ rest)) (parse_step-ordinary c items item ordinary)
          ∙ parse_loop-escape cs rest items _
          ∙ rw append_assoc)
    ]

parse_loop-write_item :
    (x : String) (rest : Chars) (items : List String)
    → parse_loop (write_item x rest) (plain items []) ≡ parse_loop rest (plain items (chars x))
unfolding parse_loop write_item
parse_loop-write_item x rest items = parse_loop-escape (chars x) _ items []

parse_end-full :
    (x : String) (items : List String)
    → chars x ≢ []
    → parse_end (plain items (chars x)) ≡ ok (items ++ (x ∷ []))
unfolding parse_end
parse_end-full String.[] items full = absurd (full refl)
parse_end-full (String.◌∷◌ c s) items full = rw join-chars

-- Every item but the last may be empty.
abbrev pub LastIsFull : List String → Type 0
LastIsFull [] = Unit
LastIsFull (x ∷ []) = chars x ≢ []
LastIsFull (x ∷ y ∷ xs) = LastIsFull (y ∷ xs)

-- What the loop has collected after a written list: the items before the last, and its characters.
last_item : List String → Chars
last_item [] = []
last_item (x ∷ []) = chars x
last_item (x ∷ y ∷ xs) = last_item (y ∷ xs)

but_last : List String → List String
but_last [] = []
but_last (x ∷ []) = []
but_last (x ∷ y ∷ xs) = x ∷ but_last (y ∷ xs)

parse_loop-write_items :
    (xs items : List String) (rest : Chars)
    → parse_loop (write_items xs rest) (plain items [])
      ≡ parse_loop rest (plain (items ++ but_last xs) (last_item xs))
unfolding parse_loop write_items last_item but_last
parse_loop-write_items [] items rest = rw append-nil
parse_loop-write_items (x ∷ []) items rest = rw append-nil (parse_loop-write_item x rest items)
parse_loop-write_items (x ∷ y ∷ xs) items rest =
    parse_loop-write_item x _ items
    ∙ rw join-chars (parse_loop-write_items (y ∷ xs) (items ++ (x ∷ [])) rest ∙ rw append_assoc)

parse_end-write_items :
    (xs items : List String)
    → LastIsFull xs
    → parse_end (plain (items ++ but_last xs) (last_item xs)) ≡ ok (items ++ xs)
unfolding last_item but_last parse_end
parse_end-write_items [] items full = refl
parse_end-write_items (x ∷ []) items full =
    ap (λ r. parse_end (plain r (chars x))) (append-nil items) ∙ parse_end-full x items full
parse_end-write_items (x ∷ y ∷ xs) items full =
    ap (λ r. parse_end (plain r (last_item (y ∷ xs))))
      (sym (append_assoc items (x ∷ []) (but_last (y ∷ xs))))
    ∙ parse_end-write_items (y ∷ xs) (items ++ (x ∷ [])) full
    ∙ rw append_assoc

-- A list of items, each in double quotes with a backslash before every `"` and `\` and with commas
-- between them, is read back by `parse_list` as it was, if its last item is not empty. An unclosed
-- quote behind it raises the ValueError of the code, and a backslash behind it an IndexError.
pub parse_list-write_items :
    (xs : List String)
    → LastIsFull xs
    → (parse_list (join (write_items xs [])) ≡ ok xs)
      × (parse_list (join (write_items xs ("\"" ∷ []))) ≡ raised value_error)
      × (parse_list (join (write_items xs ("\\" ∷ []))) ≡ raised index_error)
unfolding parse_list
parse_list-write_items xs full = (
  rw (chars-join (write_items xs []))
      (parse_loop-write_items xs [] [] ∙ parse_end-write_items xs [] full),
  rw (chars-join (write_items xs ("\"" ∷ []))) (parse_loop-write_items xs [] _),
  rw (chars-join (write_items xs ("\\" ∷ []))) (parse_loop-write_items xs [] _),
)
