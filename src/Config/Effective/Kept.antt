-- ===== src/Config/Effective/Kept.antt =====
-- Which sections `_check_effective_config_validity` keeps.
use virt_who.Base.{
  String, ◌≡◌, refl, ap, sym, subst, ◌∙◌, Bool, true, false, not, ◌&&◌, ◌||◌, List, [], ◌∷◌, ◌++◌,
  select, is_empty, Result, ok, raised, >>=-eq-ok, ◌==◌, string_eq, same_text, arith, Bool-cases,
  inl, inr,
}
use virt_who.Base.Keys.{Keys, contains, contains-empty}
use virt_who.Base.Dict.{lookup, erase, keys, has, lookup-insert, lookup-erase, contains-keys}
use virt_who.Config.Section.{Section, Message}
use virt_who.Config.Methods.{Validator}
use virt_who.Config.Effective.{
  Sections, cmdline, is_virt, virt_sections, section_is_valid, erase_each, validate_config,
  fall_back_to_libvirt, check_validity, invalid_sections, valid_only, wants_fall_back,
  drop_messages, drop_invalid,
}

contains-select :
    (f : String → Bool) (ks : Keys) (k : String) → contains (select f ks) k ≡ (contains ks k && f k)
unfolding contains
contains-select f [] k = refl
contains-select f (j ∷ ks) k = elim (Bool-cases (j == k)) [
  | inl same ↦
      let e : j ≡ k = ground (arith, same_text j k) in
      ground (arith, contains-select f ks k, ap f e)
  | inr other ↦ ground (arith, contains-select f ks k)
]

has-erase_each :
    (ks : Keys) (d : Sections) (k : String)
    → has k (erase_each ks d) ≡ (has k d && not (contains ks k))
unfolding erase_each contains
has-erase_each [] d k = ground arith
has-erase_each (j ∷ ks) d k = ground (arith, has-erase_each ks (erase j d) k, lookup-erase j k d)

contains-virt_sections :
    (d : Sections) (k : String) → contains (virt_sections d) k ≡ (has k d && is_virt k)
unfolding virt_sections
contains-virt_sections d k =
    contains-select is_virt (keys d) k ∙ ap (λ b. b && is_virt k) (contains-keys d k)

module _ (validate_section : String → Section Validator → Result (Section Validator))
    (default_section : Result (Section Validator)) where
  -- Validation keeps the names of the sections.
  abbrev HasLike : Sections → String → Result (Sections × List Message) → Type 0
  HasLike d k (raised e) = Unit
  HasLike d k (ok (d', messages)) = has k d' ≡ has k d

  has-validate_config :
      (d d' : Sections) (messages : List Message) (k : String)
      → validate_config validate_section default_section d ≡ ok (d', messages)
      → has k d' ≡ has k d
  unfolding validate_config lookup
  has-validate_config [] d' messages k h = subst (HasLike [] k) h refl
  has-validate_config ((j, s) ∷ d) d' messages k h =
      let (s', e, rest) = >>=-eq-ok (validate_section j s) _ h in
      let (p, f, done) = >>=-eq-ok (validate_config validate_section default_section d) _ rest in
      subst (HasLike ((j, s) ∷ d) k) done (ground (arith, has-validate_config d p.0 p.1 k f))

  abbrev FallsBack : Bool → Sections → String → Result (Sections × List Message) → Type 0
  FallsBack wanted left k (raised e) = Unit
  FallsBack wanted left k (ok (kept, messages)) =
      has k kept ≡ (wanted && cmdline == k || has k left)

  has-fall_back :
      (wanted : Bool) (left kept : Sections) (messages messages' : List Message) (k : String)
      → fall_back_to_libvirt validate_section default_section wanted left messages
        ≡ ok (kept, messages')
      → has k kept ≡ (wanted && cmdline == k || has k left)
  unfolding fall_back_to_libvirt
  has-fall_back false left kept messages messages' k h = subst (FallsBack false left k) h refl
  has-fall_back true left kept messages messages' k h =
      let (s, e, done) = >>=-eq-ok default_section _ h in
      subst (FallsBack true left k) done (ground (arith, lookup-insert cmdline k s left))

  contains-invalid_sections :
      (d : Sections) (k : String)
      → contains (invalid_sections d) k ≡ (has k d && is_virt k && not (section_is_valid d k))
  unfolding invalid_sections
  contains-invalid_sections d k =
      contains-select (λ j. not (section_is_valid d j)) (virt_sections d) k
      ∙ ground (arith, contains-virt_sections d k)

  -- The names that are left when the invalid ones are dropped.
  has-valid_only :
      (d : Sections) (k : String)
      → has k d ≡ true
      → has k (valid_only d) ≡ (not (is_virt k) || section_is_valid d k)
  unfolding valid_only
  has-valid_only d k there =
      ground (arith, has-erase_each (invalid_sections d) d k, contains-invalid_sections d k)

  cmdline_gone :
      (d : Sections)
      → has cmdline d ≡ true
      → contains (virt_sections (valid_only d)) cmdline ≡ false
      → contains (invalid_sections d) cmdline ≡ false
      → ⊥
  unfolding contains
  cmdline_gone d there no_virt no_invalid = ground (
    arith,
    contains-virt_sections (valid_only d) cmdline,
    has-valid_only d cmdline there,
    contains-invalid_sections d cmdline,
  )

  -- The fallback is not taken while there is a section of the command line.
  no_fall_back :
      (not_complete : Bool) (d : Sections)
      → has cmdline d ≡ true
      → wants_fall_back not_complete d ≡ false
  unfolding wants_fall_back
  no_fall_back not_complete d there = elim (Bool-cases (wants_fall_back not_complete d)) [
    | inr not_wanted ↦ not_wanted
    | inl wanted ↦
        let no_virt : is_empty (virt_sections (valid_only d)) ≡ true =
          (unfold wants_fall_back in ground arith) in
        let no_invalid : is_empty (invalid_sections d) ≡ true =
          (unfold wants_fall_back in ground arith) in
        absurd (
          cmdline_gone d there (contains-empty (virt_sections (valid_only d)) cmdline no_virt)
            (contains-empty (invalid_sections d) cmdline no_invalid))
  ]

  kept_alone :
      (not_complete : Bool) (d : Sections) (k : String)
      → has k d ≡ true
      → (wants_fall_back not_complete d && cmdline == k || has k (valid_only d))
        ≡ has k (valid_only d)
  kept_alone not_complete d k there = elim (Bool-cases (cmdline == k)) [
    | inr other ↦ ground arith
    | inl same ↦
        let e : cmdline ≡ k = ground (arith, same_text cmdline k) in
        rw (no_fall_back not_complete d (subst (λ j. has j d ≡ true) (sym e) there)) refl
  ]

  -- When the configuration has been checked, a section that was there is kept exactly if it does not
  -- stand for a backend, or was valid after the first validation of all sections.
  pub check_validity_lem :
      (not_complete : Bool) (d validated d' : Sections) (messages messages' : List Message)
      (k : String)
      → has k d ≡ true
      → validate_config validate_section default_section d ≡ ok (validated, messages)
      → check_validity validate_section default_section not_complete d ≡ ok (d', messages')
      → has k d' ≡ (not (is_virt k) || section_is_valid validated k)
  unfolding check_validity drop_invalid
  check_validity_lem not_complete d validated d' messages messages' k there first h =
      let run : drop_invalid validate_section default_section not_complete validated messages
          ≡ ok (d', messages') =
        rw (check_validity, first) at h in
      let (b, f, again) =
        >>=-eq-ok
          (fall_back_to_libvirt validate_section default_section
            (wants_fall_back not_complete validated) (valid_only validated)
            (messages ++ drop_messages validate_section default_section validated))
          _ run in
      let (c, g, done) = >>=-eq-ok (validate_config validate_section default_section b.0) _ again in
      let there' : has k validated ≡ true =
        has-validate_config d validated messages k first ∙ there in
      subst (HasLike b.0 k) done (has-validate_config b.0 c.0 c.1 k g)
      ∙ has-fall_back (wants_fall_back not_complete validated) (valid_only validated) b.0
          (messages ++ drop_messages validate_section default_section validated) b.1 k f
      ∙ kept_alone not_complete validated k there'
      ∙ has-valid_only validated k there'
