-- ===== src/Config/Files.antt =====
-- `init_config` of virtwho/config.py: the sections of the files that make up the configuration.
pub mod Ranked
pub mod Tests
use virt_who.Base.{
  String, Bool, true, false, not, ◌&&◌, ◌||◌, Option, none, some, List, [], ◌∷◌, select, is_empty,
  length, nat_eq, any, ◌==◌, string_eq, if◌then◌else◌,
}
use virt_who.Base.Dict.{Dict, erase, update}
use virt_who.Base.Chars.{Chars, chars, join, is_char}

-- The sections of a file, each with its options.
abbrev pub FileSections : Type 0
FileSections = Dict (Dict String)

-- `s.endswith('.conf')`, on the characters.
unfoldable pub is_conf_chars : Chars → Bool
is_conf_chars [] = false
is_conf_chars (c ∷ cs) = join (c ∷ cs) == ".conf" || is_conf_chars cs

abbrev pub is_conf : String → Bool
is_conf name = is_conf_chars (chars name)

-- `conf.startswith('.')`
abbrev pub is_hidden : String → Bool
is_hidden String.[] = false
is_hidden (String.◌∷◌ c cs) = is_char b'.' c

-- `has_config_files_in_drop_dir()`, by the names in the directory if it can be listed.
unfoldable pub has_config_files_in_drop_dir : Option (List String) → Bool
unfolding is_conf_chars
has_config_files_in_drop_dir none = false
has_config_files_in_drop_dir (some names) =
    let conf_files = select is_conf names in
    not (is_empty conf_files)
    && not (nat_eq (length conf_files) 1 && any (λ name. name == "template.conf") conf_files)

-- The general configuration file without the sections that `init_config` takes out of it.
unfoldable pub other_sections : FileSections → FileSections
other_sections vw_conf = erase "defaults" (erase "system_environment" (erase "global" vw_conf))

-- The two sections that are ignored in all other files, if they are there.
unfoldable pub without_ignored : FileSections → FileSections
without_ignored sections = erase "defaults" (erase "global" sections)

-- `new_section`, for each section.
unfoldable pub with_defaults : Dict String → FileSections → FileSections
with_defaults defaults [] = []
with_defaults defaults ((name, values) ∷ sections) =
    (name, update defaults values) ∷ with_defaults defaults sections

-- `parse_file`, and `os.path.join` with the directory.
module _ (parse_file : String → FileSections) (path : String → String) where
  -- `for file_name in configs: all_sections.update(parse_file(file_name))`
  unfoldable pub read_each : List String → FileSections → FileSections
  read_each [] sections = sections
  read_each (f ∷ fs) sections = read_each fs (update sections (parse_file f))

  -- The loop over the files of the directory, in the order that the set gives.
  unfoldable pub read_visible : List String → FileSections → FileSections
  read_visible [] sections = sections
  read_visible (conf ∷ confs) sections =
      read_visible confs
        (if is_hidden conf then sections else update sections (parse_file (path conf)))

  -- `all_drop_dir_config_sections()`
  unfoldable pub all_drop_dir_config_sections : Option (List String) → FileSections
  unfolding read_visible is_conf_chars
  all_drop_dir_config_sections none = []
  all_drop_dir_config_sections (some names) = read_visible (select is_conf names) []

  -- `all_sections_to_add`, from the files of the option `configs`, or else from the general file and
  -- the directory.
  unfoldable pub all_sections : List String → FileSections → Option (List String) → FileSections
  unfolding read_each other_sections all_drop_dir_config_sections
  all_sections configs vw_conf listing =
      if is_empty (read_each configs [])
      then update (update [] (other_sections vw_conf)) (all_drop_dir_config_sections listing)
      else read_each configs []

  -- The dictionaries that the sections are made from.
  unfoldable pub section_dicts :
      Dict String → List String → FileSections → Option (List String) → FileSections
  unfolding all_sections without_ignored with_defaults
  section_dicts defaults configs vw_conf listing =
      with_defaults defaults (without_ignored (all_sections configs vw_conf listing))
