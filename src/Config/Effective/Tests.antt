-- ===== src/Config/Effective/Tests.antt =====
-- The theorem on `_check_effective_config_validity` at concrete sections.
use virt_who.Base.{String, ◌≡◌, refl, false, not, ◌||◌, [], ◌∷◌, Result, ok}
use virt_who.Base.Keys.{contains}
use virt_who.Base.Dict.{lookup, has, keys, erase}
use virt_who.Config.Section.{Section, valid, invalid, is_valid, warning, about}
use virt_who.Config.Section.Define.{new_section}
use virt_who.Config.Methods.{Validator, section_type}
use virt_who.Config.Effective.{
  Sections, is_virt, virt_sections, section_is_valid, validate_config, check_validity, drop_invalid,
  drop_messages, invalid_sections, valid_only, erase_each, wants_fall_back, fall_back_to_libvirt,
  is_own_cli,
}
use virt_who.Config.Effective.Kept.{check_validity_lem}

abbrev fine : Section Validator
fine = record (new_section [] section_type "east") { state = valid }

abbrev broken : Section Validator
broken = record (new_section [] section_type "west") { state = invalid }

-- Sections whose validation has nothing to do.
abbrev unchanged : String → Section Validator → Result (Section Validator)
unchanged name s = ok s

abbrev sections : Sections
sections = ("east", fine) ∷ ("west", broken) ∷ []

sections-validated : validate_config unchanged (ok fine) sections ≡ ok (sections, [])
unfolding validate_config new_section
sections-validated = refl

sections-checked :
    check_validity unchanged (ok fine) false sections
    ≡ ok (
      ("east", fine) ∷ [],
      record { level = warning; body = about "Dropping invalid configuration" "west" } ∷ [],
    )
unfolding check_validity drop_invalid drop_messages validate_config new_section fall_back_to_libvirt
    wants_fall_back valid_only invalid_sections erase_each virt_sections section_is_valid is_own_cli
    is_valid contains keys lookup erase
sections-checked = refl

check_validity_lem_example :
    has "west" (("east", fine) ∷ []) ≡ (not (is_virt "west") || section_is_valid sections "west")
unfolding lookup
check_validity_lem_example =
    check_validity_lem unchanged (ok fine) false sections sections (("east", fine) ∷ []) []
      (record { level = warning; body = about "Dropping invalid configuration" "west" } ∷ []) "west"
      refl sections-validated sections-checked
