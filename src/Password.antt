-- ===== src/Password.antt =====
-- `Password` of virtwho/password/__init__.py: the encryption of passwords, on bytes.
pub mod RoundTrip
pub mod Tests
use virt_who.Base.{
  ℕ, zero, suc, ◌+◌, ◌-◌, ◌%◌, String, Bool, true, false, not, ◌||◌, Option, none, some, List, [],
  ◌∷◌, ◌++◌, length, take, nat_eq, replicate, if◌then◌else◌, Result, ok, raised, ◌>>=◌, index_error,
  ◌==◌, string_eq,
}

abbrev pub Bytes : Type 0
Bytes = List ℕ

abbrev pub block_size : ℕ
block_size = 16

-- `_pad(s)`
unfoldable pub pad : Bytes → Bytes
pad s =
    let padding_amount = block_size - length s % block_size in
    s ++ replicate padding_amount padding_amount

-- `s[-1]`
unfoldable pub last : Bytes → Result ℕ
last [] = raised index_error
last (b ∷ []) = ok b
last (b ∷ c ∷ s) = last (c ∷ s)

-- `_unpad(s)`: the slice `s[0:-n]` is empty for an `n` of 0, and for one beyond the length.
unfoldable pub unpad : Bytes → Result Bytes
unfolding last
unpad s = do n ← last s; ok (if nat_eq n 0 then [] else take (length s - n) s)

-- What `Password` uses of binascii and of the library of ciphers: a block cipher with a key and an
-- initialization vector.
pub record Cipher : Type 0 where
  pub unhexlify : String → Bytes
  pub encryptor : Bytes → Bytes → Bytes → Bytes
  pub decryptor : Bytes → Bytes → Bytes → Bytes

-- The key file with its two lines, without surrounding space; whether the process is root and may
-- write the file; and the key and the vector that would be generated.
pub record System : Type 0 where
  pub key_file : Option (String × String)
  pub is_root : Bool
  pub can_write : Bool
  pub generated : String × String

-- `_read_key_iv()`: `none` is an InvalidKeyFile.
unfoldable pub read_key_iv : System → Option (String × String)
read_key_iv s = elim s.key_file [
  | none ↦ none
  | some (key, iv) ↦ if iv == "" || key == "" then none else some (key, iv)
]

-- `_read_or_generate_key_iv()`: `none` is an UnwritableKeyFile.
unfoldable pub read_or_generate_key_iv : System → Option ((String × String) × System)
unfolding read_key_iv
read_or_generate_key_iv s = elim (read_key_iv s) [
  | some key_iv ↦ some (key_iv, s)
  | none ↦
      if not s.is_root
      then none
      else if not s.can_write
      then none
      else some (s.generated, record s { key_file = some s.generated })
]

module _ (cipher : Cipher) where
  abbrev pub bytes_of : String → Bytes
  bytes_of text = take block_size (cipher.unhexlify text)

  -- `encrypt(password)`, for a password in UTF-8, with the key file that it leaves.
  unfoldable pub encrypt : Bytes → System → Option (Bytes × System)
  unfolding read_or_generate_key_iv pad
  encrypt password s = elim (read_or_generate_key_iv s) [
    | none ↦ none
    | some ((key, iv), s') ↦ some (cipher.encryptor (bytes_of key) (bytes_of iv) (pad password), s')
  ]

  -- `decrypt(enc)`, up to the decoding: `none` is an InvalidKeyFile.
  unfoldable pub decrypt : Bytes → System → Option (Result Bytes)
  unfolding read_key_iv unpad
  decrypt enc s = elim (read_key_iv s) [
    | none ↦ none
    | some (key, iv) ↦ some (unpad (cipher.decryptor (bytes_of key) (bytes_of iv) enc))
  ]
