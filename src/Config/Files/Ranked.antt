-- ===== src/Config/Files/Ranked.antt =====
-- Which file a section is taken from, and where its options come from.
use virt_who.Base.{
  String, ◌≡◌, refl, ap, ◌∙◌, ◌||◌, Option, none, some, List, [], ◌∷◌, select, is_empty, all, ◌&&◌,
  ◌==◌, string_eq, if◌then◌else◌, arith, same_text, Bool-cases, inl, inr,
}
use virt_who.Base.Dict.{
  Dict, lookup, erase, update, NodupKeys, lookup-erase, first_of, lookup-update, is_empty-update,
  update-NodupKeys, erase-NodupKeys,
}
use virt_who.Config.Files.{
  FileSections, is_conf, is_hidden, other_sections, without_ignored, with_defaults, read_each,
  read_visible, all_drop_dir_config_sections, all_sections, section_dicts,
}

abbrev pub defaulted : Dict String → Option (Dict String) → Option (Dict String)
defaulted defaults none = none
defaulted defaults (some values) = some (update defaults values)

first_of_assoc :
    (a b c : Option (Dict String)) → first_of a (first_of b c) ≡ first_of (first_of a b) c
first_of_assoc none b c = refl
first_of_assoc (some a) b c = refl

lookup-with_defaults :
    (name : String) (defaults : Dict String) (sections : FileSections)
    → lookup name (with_defaults defaults sections) ≡ defaulted defaults (lookup name sections)
unfolding with_defaults lookup
lookup-with_defaults name defaults [] = refl
lookup-with_defaults name defaults ((k, v) ∷ sections) =
    ground (arith, lookup-with_defaults name defaults sections)

first_of-none : (a : Option (Dict String)) → first_of a none ≡ a
first_of-none none = refl
first_of-none (some a) = refl

module _ (parse_file : String → FileSections) (path : String → String)
    (distinct : (f : String) → NodupKeys (parse_file f)) where
  -- The section of the last file that has it.
  abbrev pub last_section : String → List String → Option (Dict String)
  last_section name [] = none
  last_section name (f ∷ fs) = first_of (last_section name fs) (lookup name (parse_file f))

  abbrev pub last_visible : String → List String → Option (Dict String)
  last_visible name [] = none
  last_visible name (conf ∷ confs) =
      first_of (last_visible name confs)
        (if is_hidden conf then none else lookup name (parse_file (path conf)))

  lookup-read_each :
      (name : String) (fs : List String) (d : FileSections)
      → lookup name (read_each parse_file path fs d)
        ≡ first_of (last_section name fs) (lookup name d)
  unfolding read_each
  lookup-read_each name [] d = refl
  lookup-read_each name (f ∷ fs) d =
      lookup-read_each name fs (update d (parse_file f))
      ∙ ap (first_of (last_section name fs)) (lookup-update name d (parse_file f) (distinct f))
      ∙ first_of_assoc (last_section name fs) (lookup name (parse_file f)) (lookup name d)

  lookup-read_visible :
      (name : String) (confs : List String) (d : FileSections)
      → lookup name (read_visible parse_file path confs d)
        ≡ first_of (last_visible name confs) (lookup name d)
  unfolding read_visible
  lookup-read_visible name [] d = refl
  lookup-read_visible name (conf ∷ confs) d = elim (Bool-cases (is_hidden conf)) [
    | inl hides ↦ rw hides (
        lookup-read_visible name confs d
        ∙ first_of_assoc (last_visible name confs) none (lookup name d))
    | inr shows ↦ rw shows (
        lookup-read_visible name confs (update d (parse_file (path conf)))
        ∙ ap (first_of (last_visible name confs))
            (lookup-update name d (parse_file (path conf)) (distinct (path conf)))
        ∙ first_of_assoc (last_visible name confs) (lookup name (parse_file (path conf)))
            (lookup name d))
  ]

  is_empty-read_each :
      (fs : List String) (d : FileSections)
      → is_empty (read_each parse_file path fs d)
        ≡ is_empty d && all (λ f. is_empty (parse_file f)) fs
  unfolding read_each
  is_empty-read_each [] d = ground arith
  is_empty-read_each (f ∷ fs) d =
      ground
        (arith, is_empty-read_each fs (update d (parse_file f)), is_empty-update d (parse_file f))

  read_visible-NodupKeys :
      (confs : List String) (d : FileSections)
      → NodupKeys d
      → NodupKeys (read_visible parse_file path confs d)
  unfolding read_visible
  read_visible-NodupKeys [] d u = u
  read_visible-NodupKeys (conf ∷ confs) d u = elim (Bool-cases (is_hidden conf)) [
    | inl hides ↦ rw (read_visible, hides) (read_visible-NodupKeys confs d u)
    | inr shows ↦
        rw (read_visible, shows)
          (read_visible-NodupKeys confs (update d (parse_file (path conf)))
            (update-NodupKeys d (parse_file (path conf)) u))
  ]

  other_sections-NodupKeys : (d : FileSections) → NodupKeys d → NodupKeys (other_sections d)
  unfolding other_sections
  other_sections-NodupKeys d u =
      erase-NodupKeys "defaults" (erase "system_environment" (erase "global" d))
        (erase-NodupKeys "system_environment" (erase "global" d) (erase-NodupKeys "global" d u))

  -- The section of a name by rank: that of the last file of the option `configs` if one of these has
  -- a section, or else that of the last visible file of the directory, or that of the general file.
  abbrev pub in_directory : String → Option (List String) → Option (Dict String)
  in_directory name none = none
  in_directory name (some names) = last_visible name (select is_conf names)

  abbrev pub ranked :
      String → List String → FileSections → Option (List String) → Option (Dict String)
  ranked name configs vw_conf listing =
      if all (λ f. is_empty (parse_file f)) configs
      then first_of (in_directory name listing) (lookup name (other_sections vw_conf))
      else last_section name configs

  lookup-drop_dir :
      (name : String) (listing : Option (List String))
      → lookup name (all_drop_dir_config_sections parse_file path listing)
        ≡ in_directory name listing
  unfolding all_drop_dir_config_sections lookup
  lookup-drop_dir name none = refl
  lookup-drop_dir name (some names) =
      lookup-read_visible name (select is_conf names) []
      ∙ first_of-none (last_visible name (select is_conf names))

  drop_dir-NodupKeys :
      (listing : Option (List String))
      → NodupKeys (all_drop_dir_config_sections parse_file path listing)
  unfolding all_drop_dir_config_sections
  drop_dir-NodupKeys none = tt
  drop_dir-NodupKeys (some names) = read_visible-NodupKeys (select is_conf names) [] tt

  lookup-all_sections :
      (name : String) (configs : List String) (vw_conf : FileSections)
      (listing : Option (List String))
      → NodupKeys vw_conf
      → lookup name (all_sections parse_file path configs vw_conf listing)
        ≡ ranked name configs vw_conf listing
  unfolding all_sections lookup
  lookup-all_sections name configs vw_conf listing u = ground (
    arith,
    is_empty-read_each configs [],
    lookup-read_each name configs [],
    first_of-none (last_section name configs),
    lookup-update name (update [] (other_sections vw_conf))
        (all_drop_dir_config_sections parse_file path listing) (drop_dir-NodupKeys listing),
    lookup-update name [] (other_sections vw_conf) (other_sections-NodupKeys vw_conf u),
    first_of-none (lookup name (other_sections vw_conf)),
    lookup-drop_dir name listing,
  )

  -- With files that have each section once, a section is made from the section of its name by rank,
  -- its options put over the defaults: the rank is that of the last file of the option configs if one
  -- of these has a section, or else that of the last visible file of the directory, or that of the
  -- general file. There is no other section, and none for the names global and defaults.
  pub section_dicts-ranked :
      (name : String) (defaults : Dict String) (configs : List String) (vw_conf : FileSections)
      (listing : Option (List String))
      → NodupKeys vw_conf
      → lookup name (section_dicts parse_file path defaults configs vw_conf listing) ≡ (
          if name == "global" || name == "defaults"
          then none
          else defaulted defaults (ranked name configs vw_conf listing))
  unfolding section_dicts without_ignored
  section_dicts-ranked name defaults configs vw_conf listing u =
      let all : FileSections = all_sections parse_file path configs vw_conf listing in
      lookup-with_defaults name defaults (without_ignored all)
      ∙ ground (
        arith,
        lookup-erase "defaults" name (erase "global" all),
        lookup-erase "global" name all,
        same_text name "global",
        same_text "global" name,
        same_text name "defaults",
        same_text "defaults" name,
        lookup-all_sections name configs vw_conf listing u,
      )
