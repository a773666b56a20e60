-- ===== src/Config/Mapper/Tests.antt =====
-- The theorems on virtwho/config.py's mapping of sources to destinations at concrete options.
use virt_who.Base.{ℕ, ◌≡◌, refl, true, List, [], ◌∷◌, length, string_eq}
use virt_who.Base.Keys.{contains}
use virt_who.Base.Dict.{Dict, has, lookup, NodupKeys}
use virt_who.Config.Value.{Value, str, value_eq}
use virt_who.Config.Mapper.{is_unset, sources_of, map_destinations_to_sources}
use virt_who.Config.Mapper.Sources.{names_in, is_orphan, map_destinations_to_sources_lem}
use virt_who.Config.Mapper.Collisions.{info_of, both, collision}

-- A hash to run with.
abbrev count : List Value → ℕ
count values = length values

abbrev acme : Value
acme = str "acme"

abbrev host : Value
host = str "sat.example.com"

-- Two sources with the options of a section that has been validated.
abbrev with_hostname : Dict Value
with_hostname =
    ("type", str "esx") ∷ ("owner", acme) ∷ ("rhsm_hostname", host) ∷ ("sm_type", str "sam") ∷ []

abbrev with_prefix : Dict Value
with_prefix =
    ("type", str "esx") ∷ ("owner", acme) ∷ ("rhsm_prefix", host) ∷ ("sm_type", str "sam") ∷ []

abbrev configs : Dict (Dict Value)
configs = ("east", with_hostname) ∷ ("west", with_prefix) ∷ []

configs-NodupKeys : NodupKeys configs
unfolding lookup
configs-NodupKeys = (refl, (refl, tt))

map_destinations_to_sources_lem_example :
    let m = map_destinations_to_sources count both configs in
    let j = info_of "rhsm_hostname" acme host in
    (contains (sources_of count j m.dest_to_source_map) "east"
      ≡ names_in count both j configs "east")
    × (contains m.sources_without_destinations "east" ≡ is_orphan count both configs "east")
    × (contains m.sources "east" ≡ has "east" configs)
map_destinations_to_sources_lem_example =
    map_destinations_to_sources_lem count both configs (info_of "rhsm_hostname" acme host) "east"
      configs-NodupKeys

collision_example :
    let m = map_destinations_to_sources count both configs in
    (contains (sources_of count (info_of "rhsm_prefix" acme host) m.dest_to_source_map) "east"
      ≡ true)
    × (contains (sources_of count (info_of "rhsm_prefix" acme host) m.dest_to_source_map) "west"
        ≡ true)
unfolding is_unset value_eq lookup
collision_example =
    collision count configs "east" "west" with_hostname with_prefix acme host configs-NodupKeys refl
      refl
      (record {
        has_owner = refl;
        owner_set = refl;
        has_option = refl;
        option_set = refl;
        none_before = refl;
        none_behind = refl;
      })
      (record {
        has_owner = refl;
        owner_set = refl;
        has_option = refl;
        option_set = refl;
        none_before = refl;
        none_behind = refl;
      })
