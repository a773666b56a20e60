-- ===== src/Manager/Satellite/Saved.antt =====
-- The system of a hypervisor is registered once.
use virt_who.Base.{
  String, ◌≡◌, ap, sym, ◌∙◌, ◌⊎◌, inl, inr, Bool, true, false, ◌||◌, Option, none, some,
  if◌then◌else◌, arith, same_text_self, Bool-cases, string_eq,
}
use virt_who.Base.Dict.{lookup, lookup-insert}
use virt_who.Base.Method.{success, ◌>>=◌, >>=-success}
use virt_who.Manager.Satellite.{System, SystemFile, pickled, broken, Satellite, Link}
use virt_who.Manager.Satellite.Register.{
  ensure_channel, register_system, or_no_system, read_or_register, load_hypervisor,
}

module _ (satellite : Satellite) (uuid : String) (writes : satellite.writable uuid ≡ true) where
  register_system-saved :
      (system : Option System) (s s' : Link)
      → register_system satellite uuid s ≡ (success system, s')
      → lookup uuid s'.files ≡ some (pickled system)
  unfolding register_system ensure_channel
  register_system-saved system s s' e =
      ground
        (arith, e, writes, lookup-insert uuid uuid (pickled system) s.files, same_text_self uuid)

  or_no_system_lem :
      (found : Option System) (system : System) (s s' : Link)
      → or_no_system satellite found s ≡ (success system, s')
      → (found ≡ some system) × (s ≡ s')
  or_no_system_lem none system s s' e = cc
  or_no_system_lem (some found) system s s' e = (ground (arith, e), ground (arith, e))

  -- A system that was read or registered is in its file.
  read_or_register-saved :
      (known : Option SystemFile) (system : System) (s s' : Link)
      → (known ≡ none) ⊎ (lookup uuid s.files ≡ known)
      → (read_or_register satellite uuid known >>= or_no_system satellite) s ≡ (success system, s')
      → lookup uuid s'.files ≡ some (pickled (some system))
  unfolding read_or_register
  read_or_register-saved none system s s' from e =
      let (found, x, registered, later) =
        >>=-success (register_system satellite uuid) (or_no_system satellite) system s s' e in
      let (is_found, same) = or_no_system_lem found system x s' later in
      ap (λ (y : Link). lookup uuid y.files) (sym same)
      ∙ register_system-saved found s x registered
      ∙ ap (λ y. some (pickled y)) is_found
  read_or_register-saved (some (pickled found)) system s s' from e =
      let (is_found, same) = or_no_system_lem found system s s' e in
      ground (arith, from, is_found, ap (λ (y : Link). lookup uuid y.files) same)
  read_or_register-saved (some broken) system s s' from e = cc

  -- Once a system was loaded, forced or not, and its file could be written, the next load gives the
  -- same system without a call and changes nothing.
  pub load_hypervisor-again :
      (force : Bool) (system : System) (s s' : Link)
      → satellite.force_register ≡ false
      → load_hypervisor satellite force uuid s ≡ (success system, s')
      → load_hypervisor satellite false uuid s' ≡ (success system, s')
  unfolding load_hypervisor read_or_register
  load_hypervisor-again force system s s' unforced e =
      let known = if force || satellite.force_register then none else lookup uuid s.files in
      let from : (known ≡ none) ⊎ (lookup uuid s.files ≡ known) =
        elim (Bool-cases (force || satellite.force_register)) [
          | inl forced ↦ inl (ground (arith, forced))
          | inr read ↦ inr (ground (arith, read))
        ] in
      let saved = read_or_register-saved known system s s' from e in ground (arith, saved, unforced)
