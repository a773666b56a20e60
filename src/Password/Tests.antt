-- ===== src/Password/Tests.antt =====
-- The theorems on virtwho/password/__init__.py at a concrete password.
use virt_who.Base.{◌≡◌, refl, true, none, some, [], ◌∷◌, ◌++◌, replicate, ok}
use virt_who.Password.{
  Bytes, pad, Cipher, System, read_key_iv, read_or_generate_key_iv, encrypt, decrypt,
}
use virt_who.Password.RoundTrip.{decrypt-encrypt}

abbrev password : Bytes
password = 112 ∷ 119 ∷ []

-- A cipher that changes nothing, and a machine without a key file.
abbrev plain : Cipher
plain = record {
  unhexlify = λ text. [];
  encryptor = λ key iv text. text;
  decryptor = λ key iv text. text;
}

abbrev fresh : System
fresh = record { key_file = none; is_root = true; can_write = true; generated = ("6b6579", "6976") }

abbrev with_key : System
with_key = record fresh { key_file = some ("6b6579", "6976") }

password-encrypted : encrypt plain password fresh ≡ some (password ++ replicate 14 14, with_key)
unfolding encrypt read_or_generate_key_iv read_key_iv pad
password-encrypted = refl

decrypt-encrypt_example : decrypt plain (password ++ replicate 14 14) with_key ≡ some (ok password)
decrypt-encrypt_example =
    decrypt-encrypt plain password (password ++ replicate 14 14) fresh with_key refl refl
      (λ key iv text h. refl) password-encrypted
