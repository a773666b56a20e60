-- ===== src/Migrate.antt =====
-- virtwho/migrate/migrateconfiguration.py: environment variables that move into the configuration
-- file. A file is the list of its lines, each with its end.
pub mod Blocks
mod Tests
use virt_who.Base.{
  ℕ, String, Bool, true, false, not, ◌&&◌, ◌||◌, Option, none, some, List, [], ◌∷◌, ◌++◌, is_empty,
  if◌then◌else◌, ◌==◌, string_eq,
}
use virt_who.Base.Chars.{Chars, chars, join, is_char, is_space, strip}
use virt_who.Base.Dict.{Dict, lookup, insert, erase, is_some}

-- `text.strip()`
unfoldable pub stripped : String → String
stripped s = join (strip is_space (chars s))

-- `line.startswith('#')`, and the text behind the first character.
abbrev pub is_comment : String → Bool
is_comment s = elim (chars s) [ [] ↦ false | c ∷ cs ↦ is_char b'#' c ]

abbrev pub behind_first : String → String
behind_first s = elim (chars s) [ [] ↦ join [] | c ∷ cs ↦ join cs ]

-- `line.partition("=")[::2]`
abbrev pub partition_chars : Chars → Chars × Chars
partition_chars [] = ([], [])
partition_chars (c ∷ cs) =
    let (name, var) = partition_chars cs in if is_char b'=' c then ([], cs) else (c ∷ name, var)

-- The variables of the sysconfig file: the last line with a name counts.
unfoldable pub read_variables : List String → Dict String → Dict String
unfolding stripped
read_variables [] env_vars = env_vars
read_variables (line ∷ lines) env_vars =
    let (name, var) = partition_chars (chars line) in
    read_variables lines
      (if is_comment line then env_vars else insert (stripped (join name)) (join var) env_vars)

-- What is to be merged: the three options of the global section, and the other variables.
pub record Given : Type 0 where
  pub interval : Option String
  pub debug : Option String
  pub one_shot : Option String
  pub env_vars : Dict String

-- `if name in env_vars: value = env_vars.pop(name)`
abbrev pub or_else : Option String → Option String → Option String
or_else none value = value
or_else (some found) value = some found

-- The variables by the environment, which the file overrides.
unfoldable pub gather : (String → Option String) → List String → Given
unfolding read_variables
gather environ sysconfig =
    let read = read_variables sysconfig [] in
    record {
      interval = or_else (lookup "VIRTWHO_INTERVAL" read) (environ "VIRTWHO_INTERVAL");
      debug = or_else (lookup "VIRTWHO_DEBUG" read) (environ "VIRTWHO_DEBUG");
      one_shot = or_else (lookup "VIRTWHO_ONE_SHOT" read) (environ "VIRTWHO_ONE_SHOT");
      env_vars = erase "VIRTWHO_ONE_SHOT" (erase "VIRTWHO_DEBUG" (erase "VIRTWHO_INTERVAL" read));
    }

-- The test of a value: a text that is not empty.
abbrev pub is_full : Option String → Bool
is_full none = false
is_full (some s) = not (is_empty (chars s))

-- The lines that the two functions append. A text of several lines is one member, as in the source.
pub data Line : Type 0 where
  kept : String → Line
  empty_line global_header environment_header : Line
  migrated : String → String → Line

abbrev pub assigned : String → (String → String) → Option String → List Line
assigned name f none = []
assigned name f (some s) = if is_empty (chars s) then [] else migrated name (f s) ∷ []

unfoldable pub flag_text : String → String
unfolding stripped
flag_text s = if stripped s == "1" then "True" else "False"

-- `add_global(output, interval, debug, one_shot)`
unfoldable pub add_global : Given → List Line
unfolding stripped flag_text
add_global given =
    assigned "interval" stripped given.interval
    ++ assigned "debug" flag_text given.debug
    ++ assigned "oneshot" flag_text given.one_shot

-- `add_system_environment(output, env_vars)`
unfoldable pub add_system_environment : Dict String → List Line
unfolding stripped
add_system_environment [] = []
add_system_environment ((key, value) ∷ env_vars) =
    let rest = add_system_environment env_vars in
    if is_empty (chars key) then rest else migrated key (stripped value) ∷ rest

-- Whether a line is the header of a section, or has it behind a `#`.
unfoldable pub is_header : String → String → Bool
unfolding stripped
is_header name line =
    let s = stripped line in s == name || is_comment s && stripped (behind_first s) == name

-- What the loop over the lines has.
pub record Merge : Type 0 where
  pub output : List Line
  pub has_sys_env : Bool
  pub has_global : Bool

module _ (given : Given) where
  -- A round for a line.
  unfoldable pub merge_line : String → Merge → Merge
  unfolding is_header add_global add_system_environment
  merge_line line m =
      if is_header "[global]" line
      then record m { has_global = true; output = m.output ++ (global_header ∷ add_global given) }
      else if is_header "[system_environment]" line
      then record m {
        has_sys_env = true;
        output = m.output ++ (environment_header ∷ add_system_environment given.env_vars);
      }
      else record m { output = m.output ++ (kept line ∷ []) }

  unfoldable pub merge_lines : List String → Merge → Merge
  unfolding merge_line
  merge_lines [] m = m
  merge_lines (line ∷ lines) m = merge_lines lines (merge_line line m)

  -- A section that the file does not have, behind an empty line if something stands before it.
  abbrev pub add_section : Line → List Line → List Line → List Line
  add_section header lines output =
      output ++ (if is_empty output then [] else empty_line ∷ []) ++ (header ∷ lines)

  unfoldable pub close : Merge → List Line
  unfolding add_global add_system_environment
  close m =
      let wants_global =
        not m.has_global
        && (is_full given.interval || is_full given.debug || is_full given.one_shot) in
      let output =
        if wants_global then add_section global_header (add_global given) m.output else m.output in
      if not m.has_sys_env && not (is_empty given.env_vars)
      then add_section environment_header (add_system_environment given.env_vars) output
      else output

  -- The new file, or none if there is nothing to merge.
  unfoldable pub migrate : List String → Option (List Line)
  unfolding merge_lines close
  migrate lines =
      if not (is_some given.interval)
        && not (is_some given.debug)
        && not (is_some given.one_shot)
        && is_empty given.env_vars
      then none
      else some (
          close
            (merge_lines lines (record { output = []; has_sys_env = false; has_global = false })))

-- `migrate_env_to_config`, by the environment and the lines of the two files.
unfoldable pub migrate_env_to_config :
    (String → Option String) → List String → List String → Option (List Line)
unfolding gather migrate
migrate_env_to_config environ sysconfig lines = migrate (gather environ sysconfig) lines
