-- ===== src/Config/Quotes.antt =====
-- `StripQuotesConfigParser.get` of virtwho/config.py, on the value that `ConfigParser.get` read.
use Prim.Native.Char.{Char, code}
use virt_who.Base.{
  ℕ, ◌≡◌, refl, ap, Bool, true, false, not, ◌&&◌, ◌||◌, [], ◌∷◌, ◌++◌, arith, if◌then◌else◌, any,
  Bool-cases, inl, inr, ◌∙◌,
}
use virt_who.Base.Chars.{Chars, is_char, strip, strip_right}
use virt_who.Config.ParseList.{double, single}

-- `value.startswith(quote)` and `value.endswith(quote)`
starts_with : ℕ → Chars → Bool
starts_with q [] = false
starts_with q (c ∷ cs) = is_char q c

ends_with : ℕ → Chars → Bool
ends_with q [] = false
ends_with q (c ∷ []) = is_char q c
ends_with q (c ∷ d ∷ cs) = ends_with q (d ∷ cs)

-- `value[1:-1]`
but_last : Chars → Chars
but_last [] = []
but_last (c ∷ []) = []
but_last (c ∷ d ∷ cs) = c ∷ but_last (d ∷ cs)

inside : Chars → Chars
unfolding but_last
inside [] = []
inside (c ∷ cs) = but_last cs

-- The test of one round, and the strip of that round.
unfoldable pub has_quotes : ℕ → Chars → Bool
unfolding starts_with ends_with inside
has_quotes q value =
    starts_with q value && ends_with q value && not (any (is_char q) (inside value))

unfoldable pub strip_quotes : Chars → Chars
strip_quotes value =
    if has_quotes double value
    then strip (is_char double) value
    else if has_quotes single value
    then strip (is_char single) value
    else value

ends_with-snoc : (q : ℕ) (cs : Chars) (c : Char) → ends_with q (cs ++ (c ∷ [])) ≡ is_char q c
unfolding ends_with
ends_with-snoc q [] c = refl
ends_with-snoc q (d ∷ []) c = refl
ends_with-snoc q (d ∷ e ∷ cs) c = ends_with-snoc q (e ∷ cs) c

but_last-snoc : (cs : Chars) (c : Char) → but_last (cs ++ (c ∷ [])) ≡ cs
unfolding but_last
but_last-snoc [] c = refl
but_last-snoc (d ∷ []) c = refl
but_last-snoc (d ∷ e ∷ cs) c = ap (λ r. d ∷ r) (but_last-snoc (e ∷ cs) c)

strip_right-snoc :
    (q : ℕ) (cs : Chars) (c : Char)
    → any (is_char q) cs ≡ false
    → is_char q c ≡ true
    → strip_right (is_char q) (cs ++ (c ∷ [])) ≡ cs
unfolding strip_right
strip_right-snoc q [] c h e = rw e
strip_right-snoc q (d ∷ []) c h e = ground arith
strip_right-snoc q (d ∷ f ∷ cs) c h e = ground (arith, strip_right-snoc q (f ∷ cs) c)

strip-wrap :
    (q : ℕ) (cs : Chars) (c : Char)
    → any (is_char q) cs ≡ false
    → is_char q c ≡ true
    → strip (is_char q) (c ∷ (cs ++ (c ∷ []))) ≡ cs
unfolding strip
strip-wrap q [] c h e = ground arith
strip-wrap q (d ∷ cs) c h e = ground (arith, strip_right-snoc q (d ∷ cs) c)

has_quotes-wrap :
    (q : ℕ) (cs : Chars) (c : Char)
    → has_quotes q (c ∷ (cs ++ (c ∷ []))) ≡ (is_char q c && not (any (is_char q) cs))
unfolding has_quotes
has_quotes-wrap q cs c = rw (but_last-snoc cs c) (ground (arith, ends_with-snoc q (c ∷ cs) c))

has_quotes-plain :
    (q : ℕ) (c : Char) (cs : Chars) → is_char q c ≡ false → has_quotes q (c ∷ cs) ≡ false
unfolding has_quotes
has_quotes-plain q c cs h = rw h

pub wrap : Char → Chars → Chars
wrap c body = c ∷ (body ++ (c ∷ []))

strip_quotes-double :
    (c : Char) (body : Chars)
    → is_char double c ≡ true
    → strip_quotes (wrap c body) ≡ (if any (is_char double) body then wrap c body else body)
unfolding strip_quotes wrap
strip_quotes-double c body q = ground (
  arith,
  has_quotes-wrap double body c,
  strip-wrap double body c,
  has_quotes-plain single c (body ++ (c ∷ [])),
)

strip_quotes-single :
    (c : Char) (body : Chars)
    → is_char single c ≡ true
    → strip_quotes (wrap c body) ≡ (if any (is_char single) body then wrap c body else body)
unfolding strip_quotes wrap
strip_quotes-single c body q =
    ground (
      arith,
      has_quotes-wrap double body c,
      has_quotes-wrap single body c,
      strip-wrap single body c,
    )

strip_quotes-plain :
    (c : Char) (body : Chars)
    → is_char double c ≡ false
    → is_char single c ≡ false
    → strip_quotes (c ∷ body) ≡ c ∷ body
unfolding strip_quotes
strip_quotes-plain c body h k =
    rw (has_quotes-plain double c body h, has_quotes-plain single c body k)

-- A value that begins and ends with the same character loses the two exactly if that character is a
-- single or a double quote that stands nowhere between them, and is read as it is otherwise.
pub strip_quotes-wrap :
    (c : Char) (body : Chars)
    → strip_quotes (wrap c body) ≡ (
        if (is_char double c || is_char single c) && not (any (is_char (code c)) body)
        then body
        else wrap c body)
strip_quotes-wrap c body = elim (Bool-cases (is_char double c)) [
  | inl d ↦
      let e : code c ≡ double = ground arith in rw e (strip_quotes-double c body d ∙ ground arith)
  | inr n ↦ elim (Bool-cases (is_char single c)) [
    | inl s ↦
        let e : code c ≡ single = ground arith in rw e (strip_quotes-single c body s ∙ ground arith)
    | inr m ↦ rw (n, m) (unfold wrap in strip_quotes-plain c (body ++ (c ∷ [])) n m)
  ]
]
