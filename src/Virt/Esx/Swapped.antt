-- ===== src/Virt/Esx/Swapped.antt =====
-- The uuids of virtual machines with bytes in reverse.
use Prim.Native.Char.{Char}
use virt_who.Base.{◌≡◌, refl, [], ◌∷◌, ◌++◌}
use virt_who.Base.Chars.{Chars, chars}
use virt_who.Virt.Esx.Uuid.{swap_bytes}

-- Two characters of a byte, and a text that begins with three groups of bytes.
abbrev pub Byte : Type 0
Byte = Char × Char

abbrev pub byte : Byte → Chars
byte (c, d) = c ∷ d ∷ []

abbrev pub grouped : Byte → Byte → Byte → Byte → Byte → Byte → Byte → Byte → Chars → Chars
grouped b₀ b₁ b₂ b₃ b₄ b₅ b₆ b₇ rest =
    byte b₀
    ++ (byte b₁
        ++ (byte b₂
            ++ (byte b₃
                ++ (chars "-"
                    ++ (byte b₄ ++ (byte b₅ ++ (chars "-" ++ (byte b₆ ++ (byte b₇ ++ rest)))))))))

-- In a text of three groups, of four, two and two bytes, the bytes of each group change places from
-- end to end, and what follows them stays; so the change undoes itself.
pub swap_bytes-grouped :
    (b₀ b₁ b₂ b₃ b₄ b₅ b₆ b₇ : Byte) (rest : Chars)
    → (swap_bytes (grouped b₀ b₁ b₂ b₃ b₄ b₅ b₆ b₇ rest) ≡ grouped b₃ b₂ b₁ b₀ b₅ b₄ b₇ b₆ rest)
      × (swap_bytes (swap_bytes (grouped b₀ b₁ b₂ b₃ b₄ b₅ b₆ b₇ rest))
          ≡ grouped b₀ b₁ b₂ b₃ b₄ b₅ b₆ b₇ rest)
unfolding swap_bytes
swap_bytes-grouped b₀ b₁ b₂ b₃ b₄ b₅ b₆ b₇ rest = (refl, refl)
