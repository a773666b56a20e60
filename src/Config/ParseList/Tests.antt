-- ===== src/Config/ParseList/Tests.antt =====
-- The theorems on the syntax of options at concrete texts.
use virt_who.Base.{String, ◌≡◌, List, [], ◌∷◌, ok, raised, string_eq, value_error, index_error}
use virt_who.Base.Chars.{join}
use virt_who.Config.ParseList.{parse_list}
use virt_who.Config.ParseList.RoundTrip.{write_items, parse_list-write_items}

-- Items with a quote, a backslash and a comma in them.
abbrev items : List String
items = "a\"b" ∷ "" ∷ "c\\,d" ∷ []

parse_list-write_items_example :
    (parse_list (join (write_items items [])) ≡ ok items)
    × (parse_list (join (write_items items ("\"" ∷ []))) ≡ raised value_error)
    × (parse_list (join (write_items items ("\\" ∷ []))) ≡ raised index_error)
parse_list-write_items_example = parse_list-write_items items (λ e. cc)
