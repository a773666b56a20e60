-- ===== src/Config/Mapper.antt =====
-- `Info` and `DestinationToSourceMapper` of virtwho/config.py: the destinations that the options of
-- the sources name, and which sources report to each.
pub mod Sources
pub mod Collisions
pub mod Tests
use virt_who.Base.{
  ℕ, String, Bool, true, false, not, ◌&&◌, ◌||◌, Option, none, some, List, [], ◌∷◌, ◌++◌, map, any,
  select, is_empty, nat_eq, if◌then◌else◌, Result, ok, raised, ◌>>=◌, value_error, ◌==◌, string_eq,
}
use virt_who.Base.Keys.{Keys, contains, add, discard}
use virt_who.Base.Dict.{Dict, lookup, get_or}
use virt_who.Base.Sorted.{sorted}
use virt_who.Config.Value.{Value, none_value, not_set, str, value_eq}
use virt_who.Config.Methods.Virt.{sat5}

-- The subclasses of `Info`.
pub data DestinationClass : Type 0 where
  satellite5 satellite6 default_class : DestinationClass

abbrev pub class_code : DestinationClass → ℕ
class_code satellite5 = 0
class_code satellite6 = 1
class_code default_class = 2

abbrev pub required_kwargs : DestinationClass → Keys
required_kwargs satellite5 = "sat_server" ∷ "sat_username" ∷ "sat_password" ∷ []
required_kwargs satellite6 = "owner" ∷ []
required_kwargs default_class = []

abbrev pub optional_kwargs : DestinationClass → Keys
optional_kwargs satellite5 = "filter_hosts" ∷ "exclude_hosts" ∷ []
optional_kwargs satellite6 =
    "rhsm_hostname" ∷ "rhsm_port" ∷ "rhsm_prefix" ∷ "rhsm_username" ∷ "rhsm_password"
    ∷ "rhsm_proxy_hostname" ∷ "rhsm_proxy_port" ∷ "rhsm_proxy_user" ∷ "rhsm_proxy_password"
    ∷ "rhsm_no_proxy" ∷ "rhsm_insecure" ∷ []
optional_kwargs default_class = []

pub record Info : Type 0 where
  pub class : DestinationClass
  pub options : Dict Value

-- `value in [None, NotSetSentinel, '']`
unfoldable pub is_unset : Value → Bool
is_unset v = value_eq v none_value || value_eq v not_set || value_eq v (str "")

-- The loop of `Info.__init__` over the names of options.
unfoldable pub collect : Keys → Keys → Dict Value → Result (Dict Value)
unfolding contains
collect [] required kwargs = ok []
collect (arg ∷ args) required kwargs =
    let rest = collect args required kwargs in
    let missing = if contains required arg then raised value_error else rest in
    elim (lookup arg kwargs) [
      | none ↦ missing
      | some v ↦ if is_unset v then missing else (do os ← rest; ok ((arg, v) ∷ os))
    ]

-- `dest_class(**kwargs)`
unfoldable pub new_info : DestinationClass → Dict Value → Result Info
unfolding collect
new_info class kwargs = do
  options ← collect (required_kwargs class ++ optional_kwargs class) (required_kwargs class) kwargs
  ok (record { class = class; options = options })

-- The module's `default_destination_info`.
abbrev pub default_destination_info : Info
default_destination_info = record {
  class = default_class;
  options = ("name", str "default_destination") ∷ [];
}

abbrev pub option_values : Info → List Value
option_values i = map (λ o. o.1) i.options

-- `parse_dests_from_dict(dict_to_parse, dest_classes)`
unfoldable pub parse_dests_from_dict : List DestinationClass → Dict Value → List Info
unfolding new_info
parse_dests_from_dict [] options = []
parse_dests_from_dict (class ∷ classes) options =
    let rest = parse_dests_from_dict classes options in
    elim (new_info class options) [ ok i ↦ i ∷ rest | raised e ↦ rest ]

-- The built-in hash of a tuple of values is Python's.
module _ (hash : List Value → ℕ) where
  -- Whether two infos are one key of a dict or a set: `__hash__` is the hash of the values of the
  -- options, and `__eq__` compares the options of `self` with themselves, once the class is the same.
  unfoldable pub same_info : Info → Info → Bool
  same_info a b =
      nat_eq (hash (option_values a)) (hash (option_values b))
      && nat_eq (class_code a.class) (class_code b.class)

  abbrev pub SourceMap : Type 0
  SourceMap = List (Info × Keys)

  -- `dest_to_source_map.get(dest, set())`
  unfoldable pub sources_of : Info → SourceMap → Keys
  sources_of d [] = []
  sources_of d ((e, names) ∷ m) = if same_info e d then names else sources_of d m

  -- `dest_to_source_map[dest] = current_sources`, where `name` has been added to the sources.
  unfoldable pub add_source : Info → String → SourceMap → SourceMap
  add_source d name [] = (d, name ∷ []) ∷ []
  add_source d name ((e, names) ∷ m) =
      if same_info e d then (e, add name names) ∷ m else (e, names) ∷ add_source d name m

  -- `dests.add(dest)`
  unfoldable pub add_dest : Info → List Info → List Info
  add_dest d ds = if any (λ e. same_info e d) ds then ds else ds ++ (d ∷ [])

  pub record Mapping : Type 0 where
    pub sources : Keys
    pub dests : List Info
    pub dest_to_source_map : SourceMap
    pub sources_without_destinations : Keys

  -- The loop over the destinations of one source.
  unfoldable pub map_dests : String → List Info → Mapping → Mapping
  unfolding add_source add_dest
  map_dests name [] m = m
  map_dests name (d ∷ ds) m = map_dests name ds (record {
    sources = m.sources;
    dests = add_dest d m.dests;
    dest_to_source_map = add_source d name m.dest_to_source_map;
    sources_without_destinations = discard name m.sources_without_destinations;
  })

  -- The loop over the configurations.
  unfoldable pub map_configs : List DestinationClass → Dict (Dict Value) → Mapping → Mapping
  unfolding map_dests parse_dests_from_dict
  map_configs classes [] m = m
  map_configs classes ((name, config) ∷ rest) m = map_configs classes rest (
      map_dests name (parse_dests_from_dict classes config) (record m {
        sources = add name m.sources;
        sources_without_destinations = add name m.sources_without_destinations;
      }))

  unfoldable pub sort_sources : SourceMap → SourceMap
  sort_sources [] = []
  sort_sources ((d, names) ∷ m) = (d, sorted names) ∷ sort_sources m

  abbrev pub no_mapping : Mapping
  no_mapping = record {
    sources = [];
    dests = [];
    dest_to_source_map = [];
    sources_without_destinations = [];
  }

  -- `map_destinations_to_sources(configs, dest_classes)`
  unfoldable pub map_destinations_to_sources : List DestinationClass → Dict (Dict Value) → Mapping
  unfolding map_configs sort_sources
  map_destinations_to_sources classes configs =
      let m = map_configs classes configs no_mapping in
      record m {
        dest_to_source_map = sort_sources m.dest_to_source_map;
        sources_without_destinations = sorted m.sources_without_destinations;
      }

  -- `update_dest_to_source_map`, where `sm_type` reads that option of a source: orphans that are not
  -- for Satellite 5 go to the default destination.
  unfoldable pub update_dest_to_source_map :
      List DestinationClass → (String → Value) → Dict (Dict Value) → Mapping
  unfolding map_destinations_to_sources
  update_dest_to_source_map classes sm_type configs =
      let m = map_destinations_to_sources classes configs in
      let defaulted =
        select (λ k. not (value_eq (sm_type k) (str sat5))) m.sources_without_destinations in
      if is_empty defaulted then m else record m {
        dests = add_dest default_destination_info m.dests;
        dest_to_source_map = m.dest_to_source_map ++ ((default_destination_info, defaulted) ∷ []);
      }
