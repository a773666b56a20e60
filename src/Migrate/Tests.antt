-- ===== src/Migrate/Tests.antt =====
-- The migration at a concrete input.
use virt_who.Base.{String, ◌≡◌, refl, none, some, List, [], ◌∷◌}
use virt_who.Base.Dict.{lookup, insert, erase}
use virt_who.Migrate.{
  Given, Line, kept, empty_line, global_header, environment_header, migrated, gather, migrate,
  is_header, stripped,
}
use virt_who.Migrate.Blocks.{blocks, global_part, environment_part, migrate-blocks}

abbrev given : Given
given = record {
  interval = some "3600\n";
  debug = some "1\n";
  one_shot = none;
  env_vars = ("http_proxy", "proxy\n") ∷ [];
}

-- The file with the variables gives these, whatever the environment says.
gather_run :
    gather
      (λ name. none)
      ("# a comment\n" ∷ "VIRTWHO_INTERVAL=3600\n" ∷ "http_proxy=proxy\n" ∷ "VIRTWHO_DEBUG=1\n"
        ∷ [])
    ≡ given
unfolding gather lookup erase insert virt_who.Base.Chars.strip virt_who.Base.Chars.is_space
gather_run = refl

abbrev lines : List String
lines = "# general\n" ∷ "#[global]\n" ∷ "#debug=False\n" ∷ []

abbrev output : List Line
output =
    kept "# general\n"
    ∷ global_header
    ∷ migrated "interval" "3600"
    ∷ migrated "debug" "True"
    ∷ kept "#debug=False\n"
    ∷ empty_line
    ∷ environment_header
    ∷ migrated "http_proxy" "proxy"
    ∷ []

migrate_run : migrate given lines ≡ some output
unfolding migrate is_header stripped virt_who.Base.Chars.strip virt_who.Base.Chars.is_space
migrate_run = refl

migrate-blocks_example :
    output ≡ environment_part given lines (global_part given lines (blocks given lines))
migrate-blocks_example = migrate-blocks given lines output migrate_run
