-- ===== src/Config/Methods/Corrupted.antt =====
-- What becomes of an encrypted password that cannot be decrypted.
use virt_who.Base.{
  String, ◌≡◌, refl, ap, ◌∙◌, Bool, true, false, not, ◌&&◌, if◌then◌else◌, ◌==◌, all, none, some,
  Option-cases, Bool-cases, inl, inr, List, [], ◌∷◌, any, ok, arith, string_eq, same_text,
  same_text_self,
}
use virt_who.Base.Keys.{contains, discard}
use virt_who.Base.Dict.{Dict, is_some, lookup, insert, has, lookup-insert, lookup-erase}
use virt_who.Config.Value.{Value, str}
use virt_who.Config.Section.{Section, Message, is_error, warning, about}
use virt_who.Config.Section.Validate.{
  apply_destinations, move_each, move, judge, unmark, validate_key,
}
use virt_who.Config.Methods.{Validator, Environment, corrupted, encrypted_password}
use virt_who.Config.Methods.Call.{call}
use virt_who.Config.Methods.Virt.{check_encrypted_password, decrypted}

-- Whether a destination leaves an option and the one that it moves to alone, or is theirs.
abbrev pub is_apart : String → String → String × String → Bool
is_apart k password (j, destination) =
    if j == k
    then destination == password
    else not (j == password) && not (destination == k) && not (destination == password)

move-unset :
    (k password : String) (v : Value) (s : Section Validator)
    → lookup k s.values ≡ some v
    → has password s.values ≡ false
    → contains s.invalid_keys k ≡ false
    → lookup password (move k password s).values ≡ some v
unfolding move
move-unset k password v s set unset not_invalid = ground (
  arith,
  lookup-erase k password (insert password v s.values),
  lookup-insert password password v s.values,
  same_text_self password,
  same_text k password,
)

-- A destination that is not the option's own one changes nothing that is read of it.
move-apart :
    (k password j destination l : String) (s : Section Validator)
    → (l == j) ≡ false
    → (l == destination) ≡ false
    → lookup l (move j destination s).values ≡ lookup l s.values
unfolding move
move-apart k password j destination l s other away = elim (Option-cases (lookup j s.values)) [
  | inl missing ↦ ground (arith, missing)
  | inr (v, there) ↦ ground (
    arith,
    there,
    same_text l j,
    same_text j l,
    same_text l destination,
    same_text destination l,
    other,
    away,
    lookup-erase j l (insert destination v s.values),
    lookup-insert destination l v s.values,
  )
]

move-invalid_keys :
    (j destination : String) (s : Section Validator)
    → (move j destination s).invalid_keys ≡ s.invalid_keys
unfolding move
move-invalid_keys j destination s = ground arith

move-gone :
    (j destination : String) (s : Section Validator)
    → lookup j s.values ≡ none
    → move j destination s ≡ s
unfolding move
move-gone j destination s gone = rw (move, gone) refl

move-erased :
    (k password : String) (v : Value) (s : Section Validator)
    → lookup k s.values ≡ some v
    → has password s.values ≡ false
    → contains s.invalid_keys k ≡ false
    → lookup k (move k password s).values ≡ none
unfolding move
move-erased k password v s set unset not_invalid =
    ground (arith, lookup-erase k k (insert password v s.values), same_text_self k)

module _ (k password : String) where
  -- Behind the move of the option the other destinations leave the one that it moved to alone.
  move_each-moved :
      (ds : Dict String) (s : Section Validator)
      → all (is_apart k password) ds ≡ true
      → lookup k s.values ≡ none
      → lookup password (move_each ds s).values ≡ lookup password s.values
  unfolding move_each
  move_each-moved [] s apart gone = refl
  move_each-moved ((j, destination) ∷ ds) s apart gone = elim (Bool-cases (j == k)) [
    | inl own ↦
        ap (λ x. lookup password (move_each ds x).values)
          (move-gone j destination s (ground (arith, gone, own, same_text j k)))
        ∙ move_each-moved ds s (ground (arith, apart)) gone
    | inr other ↦
        move_each-moved ds (move j destination s) (ground (arith, apart)) (
          move-apart k password j destination k s
            (ground (arith, other, same_text j k, same_text k j))
            (ground (arith, apart, other, same_text destination k, same_text k destination))
          ∙ gone)
        ∙ move-apart k password j destination password s
            (ground (arith, apart, other, same_text j password, same_text password j))
            (ground
              (arith, apart, other, same_text destination password, same_text password destination))
  ]

  move_each-moves :
      (ds : Dict String) (v : Value) (s : Section Validator)
      → all (is_apart k password) ds ≡ true
      → has k ds ≡ true
      → lookup k s.values ≡ some v
      → has password s.values ≡ false
      → contains s.invalid_keys k ≡ false
      → lookup password (move_each ds s).values ≡ some v
  unfolding move_each lookup
  move_each-moves [] v s apart there set unset not_invalid = cc
  move_each-moves ((j, destination) ∷ ds) v s apart there set unset not_invalid =
      elim (Bool-cases (j == k)) [
        | inl own ↦
            let same : ◌≡◌ {A = String × String} (j, destination) (k, password) =
              ground (arith, apart, own, same_text j k, same_text destination password) in
            ap (λ (d : String × String). lookup password (move_each ds (move d.0 d.1 s)).values)
              same
            ∙ move_each-moved ds (move k password s) (ground (arith, apart))
                (move-erased k password v s set unset not_invalid)
            ∙ move-unset k password v s set unset not_invalid
        | inr other ↦
            move_each-moves ds v (move j destination s) (ground (arith, apart))
              (ground (arith, there, other))
              (move-apart k password j destination k s
                  (ground (arith, other, same_text j k, same_text k j))
                  (ground (arith, apart, other, same_text destination k, same_text k destination))
                ∙ set)
              (ap is_some (
                  move-apart k password j destination password s
                    (ground (arith, apart, other, same_text j password, same_text password j))
                    (ground (
                      arith,
                      apart,
                      other,
                      same_text destination password,
                      same_text password destination,
                    )))
                ∙ unset)
              (ap (λ ks. contains ks k) (move-invalid_keys j destination s) ∙ not_invalid)
      ]

-- A validation of an option, and the move of the options to their destinations behind it.
pub record Passed (env : Environment) (k password : String) (v : Value) (s : Section Validator)
    : Type 0 where
  pub messages : List Message
  pub validated : Section Validator
  pub returned : validate_key (call env) k encrypted_password s ≡ ok (validated, messages)
  pub no_error : any is_error messages ≡ false
  pub moved : lookup password (apply_destinations validated).values ≡ some v

-- In a section whose destinations leave it alone otherwise, an encrypted password that is to be
-- validated and is found corrupted passes with a warning, not an error; and if no password is set,
-- the destinations then make the encrypted text itself the password.
pub corrupted_password :
    (env : Environment) (k password raw : String) (s : Section Validator)
    → all (is_apart k password) s.destinations ≡ true
    → lookup k s.destinations ≡ some password
    → lookup k s.values ≡ some (str raw)
    → env.decrypt raw ≡ corrupted
    → has password s.values ≡ false
    → contains s.unvalidated_keys k ≡ true
    → contains s.invalid_keys k ≡ false
    → Passed env k password (str raw) s
unfolding apply_destinations call check_encrypted_password decrypted unmark judge validate_key
corrupted_password env k password raw s apart moves set broken unset marked not_invalid = record {
  messages =
      record { level = warning; body = about "cannot be decrypted, possibly corrupted" k } ∷ [];
  validated = record s { unvalidated_keys = discard k s.unvalidated_keys };
  returned = rw (check_encrypted_password, moves, set, broken, unmark, marked) refl;
  no_error = refl;
  moved =
      move_each-moves k password s.destinations (str raw)
        (record s { unvalidated_keys = discard k s.unvalidated_keys }) apart (ap is_some moves) set
        unset not_invalid;
}
