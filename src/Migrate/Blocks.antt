-- ===== src/Migrate/Blocks.antt =====
-- What becomes of the lines of the configuration file.
use mathlib.Core.List.{append_assoc, append-nil}
use virt_who.Base.{
  String, ◌≡◌, ◌∙◌, Bool, false, not, ◌&&◌, ◌||◌, some, List, [], ◌∷◌, ◌++◌, any, is_empty,
  if◌then◌else◌, arith,
}
use virt_who.Migrate.{
  Given, Line, kept, global_header, environment_header, add_global, add_system_environment,
  is_header, Merge, merge_line, merge_lines, close, migrate, add_section, is_full,
}

module _ (given : Given) where
  -- A line as it stands, or a header with what is merged behind it.
  abbrev pub block : String → List Line
  block line =
      if is_header "[global]" line
      then global_header ∷ add_global given
      else if is_header "[system_environment]" line
      then environment_header ∷ add_system_environment given.env_vars
      else kept line ∷ []

  abbrev pub blocks : List String → List Line
  blocks [] = []
  blocks (line ∷ lines) = block line ++ blocks lines

  abbrev pub is_environment : String → Bool
  is_environment line = not (is_header "[global]" line) && is_header "[system_environment]" line

  merge_lines_lem :
      (lines : List String) (m : Merge)
      → merge_lines given lines m ≡ record {
        output = m.output ++ blocks lines;
        has_sys_env = m.has_sys_env || any is_environment lines;
        has_global = m.has_global || any (is_header "[global]") lines;
      }
  unfolding merge_lines merge_line
  merge_lines_lem [] m = ground (arith, append-nil m.output)
  merge_lines_lem (line ∷ lines) m =
      merge_lines_lem lines (merge_line given line m)
      ∙ ground (
        arith,
        append_assoc m.output (global_header ∷ add_global given) (blocks lines),
        append_assoc m.output (environment_header ∷ add_system_environment given.env_vars)
            (blocks lines),
        append_assoc m.output (kept line ∷ []) (blocks lines),
      )

  -- The sections that the file has no header of.
  abbrev pub has_global : List String → Bool
  has_global lines = any (is_header "[global]") lines

  abbrev pub global_part : List String → List Line → List Line
  global_part lines output =
      if not (has_global lines)
        && (is_full given.interval || is_full given.debug || is_full given.one_shot)
      then add_section given global_header (add_global given) output
      else output

  abbrev pub environment_part : List String → List Line → List Line
  environment_part lines output =
      if not (any is_environment lines) && not (is_empty given.env_vars)
      then add_section given environment_header (add_system_environment given.env_vars) output
      else output

  -- Where there is something to merge, every line of the file that is no header of the two sections
  -- stays as it is and in its place, each header, also one behind a `#`, is put without a `#` and has
  -- the options of its section merged behind it, and a section without a header is added at the end
  -- if it has options, the global one first.
  pub migrate-blocks :
      (lines : List String) (output : List Line)
      → migrate given lines ≡ some output
      → output ≡ environment_part lines (global_part lines (blocks lines))
  unfolding migrate close
  migrate-blocks lines output e = ground (
    arith,
    e,
    merge_lines_lem lines (record { output = []; has_sys_env = false; has_global = false }),
  )
