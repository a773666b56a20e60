-- ===== src/Config/Effective.antt =====
-- `EffectiveConfig` and `_check_effective_config_validity` of virtwho/config.py.
pub mod Kept
pub mod Tests
use virt_who.Base.{
  String, Bool, true, false, not, ◌&&◌, Option, none, some, List, [], ◌∷◌, ◌++◌, map, any, all,
  select, is_empty, if◌then◌else◌, Result, ok, raised, ◌>>=◌, key_error, ◌==◌, string_eq,
}
use virt_who.Base.Keys.{Keys, contains}
use virt_who.Base.Dict.{Dict, lookup, insert, erase, keys, has, update}
use virt_who.Config.Section.{Section, Message, warning, about, text, is_valid, is_section_default}
use virt_who.Config.Methods.{Validator}

-- `self._sections`
abbrev pub Sections : Type 0
Sections = Dict (Section Validator)

abbrev pub cmdline : String
cmdline = "cmdline"

-- The names that `virt_sections` leaves out.
abbrev pub is_virt : String → Bool
is_virt name = not (contains ("global" ∷ "defaults" ∷ "system_environment" ∷ []) name)

-- `virt_sections()`, by name.
unfoldable pub virt_sections : Sections → Keys
unfolding contains
virt_sections sections = select is_virt (keys sections)

unfoldable pub section_is_valid : Sections → String → Bool
section_is_valid sections name = elim (lookup name sections) [ none ↦ false | some s ↦ is_valid s ]

-- `is_valid()`
unfoldable pub config_is_valid : Sections → Bool
config_is_valid sections = all (section_is_valid sections) (keys sections)

unfoldable pub erase_each : Keys → Sections → Sections
erase_each [] sections = sections
erase_each (k ∷ ks) sections = erase_each ks (erase k sections)

-- Whether an invalid section is that of the command line and has options of its own.
unfoldable pub is_own_cli : Sections → String → Bool
is_own_cli sections name = elim (lookup name sections) [
  | none ↦ false
  | some s ↦ name == cmdline && not (is_section_default s)
]

-- The invalid sections, and all sections without them.
unfoldable pub invalid_sections : Sections → Keys
unfolding virt_sections section_is_valid
invalid_sections d = select (λ k. not (section_is_valid d k)) (virt_sections d)

unfoldable pub valid_only : Sections → Sections
unfolding erase_each invalid_sections
valid_only d = erase_each (invalid_sections d) d

-- The condition of the fallback.
unfoldable pub wants_fall_back : Bool → Sections → Bool
unfolding invalid_sections valid_only is_own_cli virt_sections
wants_fall_back config_files_not_complete d =
    not (any (is_own_cli d) (invalid_sections d))
    && is_empty (virt_sections (valid_only d))
    && is_empty (invalid_sections d)
    && not config_files_not_complete

-- `section.validate()` of the class of a section, by its name, and the section that the class of the
-- libvirt backend makes of the defaults of the command line.
module _ (validate_section : String → Section Validator → Result (Section Validator))
    (default_section : Result (Section Validator)) where
  -- `validate()`
  unfoldable pub validate_config : Sections → Result (Sections × List Message)
  validate_config [] = ok ([], [])
  validate_config ((name, s) ∷ rest) = do
    s' ← validate_section name s
    (rest', messages) ← validate_config rest
    ok ((name, s') ∷ rest', s'.validation_messages ++ messages)

  abbrev pub dropping : String → Message
  dropping name = record { level = warning; body = about "Dropping invalid configuration" name }

  abbrev pub no_valid : Message
  no_valid = record { level = warning; body = text "No valid configurations found" }

  abbrev pub using_libvirt : Message
  using_libvirt = record { level = warning; body = about "Using default configuration" cmdline }

  -- The fallback to libvirt.
  unfoldable pub fall_back_to_libvirt :
      Bool → Sections → List Message → Result (Sections × List Message)
  fall_back_to_libvirt wanted sections messages =
      if wanted
      then (do
        s ← default_section
        ok (insert cmdline s sections, messages ++ (using_libvirt ∷ [])))
      else ok (sections, messages)

  -- What `_check_effective_config_validity` says of the sections that it drops.
  unfoldable pub drop_messages : Sections → List Message
  drop_messages validated =
      map dropping (invalid_sections validated)
      ++ (if not (is_empty (invalid_sections validated))
            && is_empty (select (section_is_valid validated) (virt_sections validated))
          then no_valid ∷ []
          else [])

  -- It from the first validation on.
  unfoldable pub drop_invalid : Bool → Sections → List Message → Result (Sections × List Message)
  unfolding validate_config fall_back_to_libvirt drop_messages
  drop_invalid config_files_not_complete validated messages = do
    (kept, all_messages) ←
        fall_back_to_libvirt (wants_fall_back config_files_not_complete validated)
          (valid_only validated) (messages ++ drop_messages validated)
    (revalidated, later_messages) ← validate_config kept
    ok (revalidated, all_messages)

  -- `_check_effective_config_validity(effective_config, config_files_not_complete)`
  unfoldable pub check_validity : Bool → Sections → Result (Sections × List Message)
  unfolding validate_config drop_invalid
  check_validity config_files_not_complete sections = do
    (validated, messages) ← validate_config sections
    drop_invalid config_files_not_complete validated messages
