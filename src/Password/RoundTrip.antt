-- ===== src/Password/RoundTrip.antt =====
-- What was encrypted is read back.
use virt_who.Base.{
  ℕ, zero, suc, ◌-◌, ◌%◌, String, ◌≡◌, refl, ap, sym, subst, false, Option, none, some, [], ◌∷◌,
  ◌++◌, length, nat_eq, replicate, ok, ◌==◌, string_eq, arith, length-append, length-replicate,
  take-append, Bool-cases, Option-cases, inl, inr,
}
use virt_who.Password.{
  Bytes, block_size, pad, last, unpad, Cipher, System, read_key_iv, read_or_generate_key_iv,
  encrypt, decrypt, bytes_of,
}

last-append : (s : Bytes) (b : ℕ) (t : Bytes) → last (s ++ (b ∷ t)) ≡ last (b ∷ t)
unfolding last
last-append [] b t = refl
last-append (c ∷ []) b t = refl
last-append (c ∷ d ∷ s) b t = last-append (d ∷ s) b t

last-replicate : (n b : ℕ) → last (b ∷ replicate n b) ≡ ok b
unfolding last
last-replicate zero b = refl
last-replicate (suc n) b = last-replicate n b

unpad-append : (s : Bytes) (n : ℕ) → unpad (s ++ replicate (suc n) (suc n)) ≡ ok s
unfolding unpad
unpad-append s n =
    let rest : length (s ++ replicate (suc n) (suc n)) - suc n ≡ length s =
      omega
        (arith, length-append s (replicate (suc n) (suc n)), length-replicate (suc n) (suc n)) in
    let some_bytes : nat_eq (suc n) 0 ≡ false = ground arith in
    rw
      (
        unpad,
        last-append s (suc n) (replicate n (suc n)),
        last-replicate n (suc n),
        some_bytes,
        rest,
      )
      (ap ok (take-append s (replicate (suc n) (suc n))))

-- The bytes of a padded text fill whole blocks, and padding is undone by `_unpad`.
pub unpad-pad : (s : Bytes) → (unpad (pad s) ≡ ok s) × (length (pad s) % block_size ≡ 0)
unfolding pad
unpad-pad s =
    let amount : (n : ℕ) × (block_size - length s % block_size ≡ suc n) =
      (block_size - length s % block_size - 1, omega arith) in
    (
      subst (λ m. unpad (s ++ replicate m m) ≡ ok s) (sym amount.1) (unpad-append s amount.0),
      rw
          (
            length-append s (
                replicate (block_size - length s % block_size)
                  (block_size - length s % block_size)),
            length-replicate (block_size - length s % block_size)
                (block_size - length s % block_size),
          )
          (omega arith),
    )

-- The key and the vector that are used are what the key file then has.
abbrev KeyKept : Option ((String × String) × System) → Type 0
KeyKept none = Unit
KeyKept (some (key_iv, s)) = read_key_iv s ≡ some key_iv

read_key_iv-written :
    (s : System)
    → (s.generated.1 == "") ≡ false
    → (s.generated.0 == "") ≡ false
    → read_key_iv (record s { key_file = some s.generated }) ≡ some s.generated
unfolding read_key_iv
read_key_iv-written s h k = rw (h, k) refl

read_or_generate_key_iv-KeyKept :
    (s : System)
    → (s.generated.1 == "") ≡ false
    → (s.generated.0 == "") ≡ false
    → KeyKept (read_or_generate_key_iv s)
unfolding read_or_generate_key_iv
read_or_generate_key_iv-KeyKept s h k = elim (Option-cases (read_key_iv s)) [
  | inr (key_iv, there) ↦ rw (read_or_generate_key_iv, there) there
  | inl missing ↦ elim (Bool-cases s.is_root) [
    | inr other ↦ rw (read_or_generate_key_iv, missing, other) tt
    | inl root ↦ elim (Bool-cases s.can_write) [
      | inr full ↦ rw (read_or_generate_key_iv, missing, root, full) tt
      | inl writes ↦ rw (read_or_generate_key_iv, missing, root, writes) (read_key_iv-written s h k)
    ]
  ]
]

abbrev ReadBack : Cipher → Bytes → Option (Bytes × System) → Type 0
ReadBack cipher password none = Unit
ReadBack cipher password (some (enc, s)) = decrypt cipher enc s ≡ some (ok password)

encrypt-ReadBack :
    (cipher : Cipher) (password : Bytes) (s : System)
    → (s.generated.1 == "") ≡ false
    → (s.generated.0 == "") ≡ false
    → ((key iv text : Bytes)
        → length text % block_size ≡ 0
        → cipher.decryptor key iv (cipher.encryptor key iv text) ≡ text)
    → ReadBack cipher password (encrypt cipher password s)
unfolding encrypt decrypt
encrypt-ReadBack cipher password s h k undone = elim (Option-cases (read_or_generate_key_iv s)) [
  | inl fails ↦ rw (encrypt, fails) tt
  | inr (p, used) ↦
      let kept : read_key_iv p.1 ≡ some p.0 =
        subst KeyKept used (read_or_generate_key_iv-KeyKept s h k) in
      rw
        (
          encrypt,
          used,
          decrypt,
          kept,
          undone (bytes_of cipher p.0.0) (bytes_of cipher p.0.1) (pad password)
              (unpad-pad password).1,
          (unpad-pad password).0,
        )
        refl
]

-- A password that was encrypted, with a key file that was there or is made for it, is decrypted with
-- the key file that is then there, if the key that would be generated is not empty, and the cipher
-- decrypts what it encrypted of whole blocks.
pub decrypt-encrypt :
    (cipher : Cipher) (password enc : Bytes) (s s' : System)
    → (s.generated.1 == "") ≡ false
    → (s.generated.0 == "") ≡ false
    → ((key iv text : Bytes)
        → length text % block_size ≡ 0
        → cipher.decryptor key iv (cipher.encryptor key iv text) ≡ text)
    → encrypt cipher password s ≡ some (enc, s')
    → decrypt cipher enc s' ≡ some (ok password)
decrypt-encrypt cipher password enc s s' h k undone e =
    subst (ReadBack cipher password) e (encrypt-ReadBack cipher password s h k undone)
