-- ===== src/Config/ParseList.antt =====
-- `parse_list` of virtwho/config.py: comma-separated items, which may be in quotes.
pub mod RoundTrip
pub mod Tests
use Prim.Native.Char.{Char, code}
use virt_who.Base.{
  ℕ, String, Bool, true, false, ◌||◌, Option, none, some, List, [], ◌∷◌, ◌++◌, nat_eq,
  if◌then◌else◌, Result, ok, raised, value_error, index_error,
}
use virt_who.Base.Chars.{Chars, chars, join, is_char, is_space}

-- The codes of `"`, `'`, `,` and `\`.
abbrev pub double : ℕ
double = 34

abbrev pub single : ℕ
single = 39

abbrev pub comma : ℕ
comma = 44

abbrev pub backslash : ℕ
backslash = 92

-- The loop's variables. `escaped` says that the character before was a backslash that the loop has
-- passed: the source reads `s[i + 1]` in the round of the backslash.
pub record Scan : Type 0 where
  pub items : List String
  pub item : Chars
  pub read_to : Option ℕ
  pub escaped : Bool

abbrev pub start : Scan
start = record { items = []; item = []; read_to = none; escaped = false }

abbrev push : Char → Scan → Scan
push ch s = record s { item = s.item ++ (ch ∷ []) }

-- A round outside quotes.
scan_plain : Char → Scan → Scan
scan_plain ch s =
    if is_char double ch || is_char single ch
    then record s { read_to = some (code ch) }
    else if is_char comma ch
    then record s { items = s.items ++ (join s.item ∷ []); item = [] }
    else if is_space ch
    then s
    else push ch s

-- A round between quotes.
scan_quoted : ℕ → Char → Scan → Scan
scan_quoted q ch s = if is_char q ch then record s { read_to = none } else push ch s

unfoldable pub parse_step : Char → Scan → Scan
unfolding scan_plain scan_quoted
parse_step ch s =
    if s.escaped
    then record s { item = s.item ++ (ch ∷ []); escaped = false }
    else if is_char backslash ch
    then record s { escaped = true }
    else elim s.read_to [ none ↦ scan_plain ch s | some q ↦ scan_quoted q ch s ]

-- After the loop. A backslash at the end has read past the text.
unfoldable pub parse_end : Scan → Result (List String)
parse_end s = if s.escaped then raised index_error else elim s.read_to [
  | some q ↦ raised value_error
  | none ↦ elim s.item [ [] ↦ ok s.items | c ∷ cs ↦ ok (s.items ++ (join (c ∷ cs) ∷ [])) ]
]

unfoldable pub parse_loop : Chars → Scan → Result (List String)
unfolding parse_step parse_end
parse_loop [] s = parse_end s
parse_loop (ch ∷ rest) s = parse_loop rest (parse_step ch s)

unfoldable pub parse_list : String → Result (List String)
unfolding parse_loop
parse_list s = parse_loop (chars s) start
