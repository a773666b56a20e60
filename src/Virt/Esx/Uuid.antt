-- ===== src/Virt/Esx/Uuid.antt =====
-- `getVmUuid`: the uuid of a virtual machine.
use virt_who.Base.{
  ℕ, String, Bool, false, none, some, [], ◌∷◌, ◌++◌, take, drop, leb, if◌then◌else◌, Result, ok,
  raised, ◌>>=◌, index_error, key_error, type_error,
}
use virt_who.Base.Chars.{Chars, chars, join, is_char}
use virt_who.Base.Dict.{lookup}
use virt_who.Config.Value.{ℤ, pos, negsuc, str, to_int}
use virt_who.Virt.Esx.{Property, text, machines, parent, Properties}

-- `s[m:m + n]`
abbrev pub slice : ℕ → ℕ → Chars → Chars
slice m n s = take n (drop m s)

-- The first three groups with their bytes in reverse.
unfoldable pub swap_bytes : Chars → Chars
swap_bytes s =
    slice 6 2 s
    ++ (slice 4 2 s
        ++ (slice 2 2 s
            ++ (slice 0 2 s
                ++ (chars "-"
                    ++ (slice 11 2 s
                        ++ (slice 9 2 s
                            ++ (chars "-" ++ (slice 16 2 s ++ (slice 14 2 s ++ drop 18 s)))))))))

-- `version.split('-')[1]`
abbrev pub up_to_dash : Chars → Chars
up_to_dash [] = []
up_to_dash (c ∷ cs) = if is_char b'-' c then [] else c ∷ up_to_dash cs

abbrev pub second_part : Chars → Result Chars
second_part [] = raised index_error
second_part (c ∷ cs) = if is_char b'-' c then ok (up_to_dash cs) else second_part cs

abbrev pub as_text : Property → Result String
as_text (text s) = ok s
as_text (machines ms) = raised type_error
as_text (parent t v) = raised type_error

-- `d[key]` for a text.
abbrev pub text_at : String → Properties → Result String
text_at k d = elim (lookup k d) [ none ↦ raised key_error | some v ↦ as_text v ]

abbrev pub is_swapped : ℤ → Bool
is_swapped (pos n) = leb 13 n
is_swapped (negsuc n) = false

unfoldable pub vm_uuid : Properties → Result String
unfolding swap_bytes
vm_uuid vm = do
  s ← text_at "config.uuid" vm
  elim (lookup "config.version" vm) [
    | none ↦ ok s
    | some v ↦ do
      version ← as_text v
      part ← second_part (chars version)
      n ← to_int (str (join part))
      ok (if is_swapped n then join (swap_bytes (chars s)) else s)
  ]
