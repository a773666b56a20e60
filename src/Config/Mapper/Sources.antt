-- ===== src/Config/Mapper/Sources.antt =====
-- Each source is mapped to the destinations that its options name, and to no others.
use virt_who.Base.{
  ℕ, String, ◌≡◌, refl, ap, ◌∙◌, Bool, true, false, not, ◌&&◌, ◌||◌, List, [], ◌∷◌, any, is_empty,
  if◌then◌else◌, arith, ◌==◌, string_eq, same_text,
}
use virt_who.Base.Keys.{contains, add, discard, contains-add, contains-discard}
use virt_who.Base.Dict.{Dict, lookup, has, NodupKeys}
use virt_who.Base.Sorted.{contains-sorted}
use virt_who.Config.Value.{Value}
use virt_who.Config.Mapper.{
  DestinationClass, class_code, Info, default_destination_info, option_values,
  parse_dests_from_dict, same_info, SourceMap, sources_of, add_source, add_dest, Mapping, map_dests,
  map_configs, sort_sources, no_mapping, map_destinations_to_sources,
}

module _ (hash : List Value → ℕ) where
  -- Infos that are one key are the same key as the same others.
  same_info-left :
      (a b c : Info) → same_info hash a b ≡ true → same_info hash a c ≡ same_info hash b c
  unfolding same_info
  same_info-left a b c h =
      let e : hash (option_values a) ≡ hash (option_values b) = ground arith in
      let f : class_code a.class ≡ class_code b.class = ground arith in rw (e, f)

  same_info-right :
      (a b c : Info) → same_info hash a b ≡ true → same_info hash c a ≡ same_info hash c b
  unfolding same_info
  same_info-right a b c h =
      let e : hash (option_values a) ≡ hash (option_values b) = ground arith in
      let f : class_code a.class ≡ class_code b.class = ground arith in rw (e, f)

  contains-add_source :
      (d j : Info) (n k : String) (m : SourceMap hash)
      → contains (sources_of hash j (add_source hash d n m)) k
        ≡ (same_info hash d j && n == k || contains (sources_of hash j m) k)
  unfolding sources_of add_source contains
  contains-add_source d j n k [] = ground arith
  contains-add_source d j n k ((e, names) ∷ m) = ground (
    arith,
    contains-add_source d j n k m,
    contains-add n names k,
    same_info-left e d j,
    same_info-right d j e,
  )

  -- The destinations that a list of infos holds.
  abbrev pub names_dest : Info → List Info → Bool
  names_dest j ds = any (λ e. same_info hash e j) ds

  map_dests_lem :
      (n : String) (ds : List Info) (m : Mapping hash) (j : Info) (k : String)
      → (contains (sources_of hash j (map_dests hash n ds m).dest_to_source_map) k
          ≡ (n == k && names_dest j ds || contains (sources_of hash j m.dest_to_source_map) k))
        × (contains (map_dests hash n ds m).sources_without_destinations k
            ≡ (contains m.sources_without_destinations k && not (n == k && not (is_empty ds))))
        × ((map_dests hash n ds m).sources ≡ m.sources)
  unfolding map_dests
  map_dests_lem n [] m j k = ground arith
  map_dests_lem n (d ∷ ds) m j k =
      let m' : Mapping hash = record {
        sources = m.sources;
        dests = add_dest hash d m.dests;
        dest_to_source_map = add_source hash d n m.dest_to_source_map;
        sources_without_destinations = discard n m.sources_without_destinations;
      } in
      let (mapped, orphans, same) = map_dests_lem n ds m' j k in
      (
        mapped ∙ ground (arith, contains-add_source d j n k m.dest_to_source_map),
        orphans ∙ ground (arith, contains-discard n m.sources_without_destinations k),
        same,
      )

  -- The sources of a list of configurations that name a destination, and those that name none.
  abbrev pub names_in : List DestinationClass → Info → Dict (Dict Value) → String → Bool
  names_in classes j configs k =
      any (λ c. c.0 == k && names_dest j (parse_dests_from_dict classes c.1)) configs

  abbrev pub is_orphan : List DestinationClass → Dict (Dict Value) → String → Bool
  is_orphan classes configs k =
      any (λ c. c.0 == k && is_empty (parse_dests_from_dict classes c.1)) configs

  map_configs_lem :
      (classes : List DestinationClass) (configs : Dict (Dict Value)) (m : Mapping hash) (j : Info)
      (k : String)
      → (contains (sources_of hash j (map_configs hash classes configs m).dest_to_source_map) k
          ≡ (names_in classes j configs k || contains (sources_of hash j m.dest_to_source_map) k))
  unfolding map_configs
  map_configs_lem classes [] m j k = refl
  map_configs_lem classes ((n, config) ∷ rest) m j k =
      let m' : Mapping hash = record m {
        sources = add n m.sources;
        sources_without_destinations = add n m.sources_without_destinations;
      } in
      let ds = parse_dests_from_dict classes config in
      map_configs_lem classes rest (map_dests hash n ds m') j k
      ∙ ground (arith, (map_dests_lem n ds m' j k).0)

  no_orphan :
      (classes : List DestinationClass) (configs : Dict (Dict Value)) (k : String)
      → has k configs ≡ false
      → is_orphan classes configs k ≡ false
  unfolding lookup
  no_orphan classes [] k h = refl
  no_orphan classes ((n, config) ∷ rest) k h = ground (arith, no_orphan classes rest k)

  orphans_lem :
      (classes : List DestinationClass) (configs : Dict (Dict Value)) (m : Mapping hash)
      (k : String)
      → NodupKeys configs
      → (contains (map_configs hash classes configs m).sources_without_destinations k ≡ (
          if has k configs
          then is_orphan classes configs k
          else contains m.sources_without_destinations k))
        × (contains (map_configs hash classes configs m).sources k
            ≡ (has k configs || contains m.sources k))
  unfolding map_configs lookup
  orphans_lem classes [] m k u = (refl, refl)
  orphans_lem classes ((n, config) ∷ rest) m k u =
      let m' : Mapping hash = record m {
        sources = add n m.sources;
        sources_without_destinations = add n m.sources_without_destinations;
      } in
      let ds = parse_dests_from_dict classes config in
      let (orphans, sources) = orphans_lem classes rest (map_dests hash n ds m') k u.1 in
      let (mapped, left, same) = map_dests_lem n ds m' default_destination_info k in
      (
        orphans
            ∙ ground (
              arith,
              left,
              contains-add n m.sources_without_destinations k,
              no_orphan classes rest k,
              u.0,
              same_text n k,
            ),
        sources ∙ ground (arith, ap (λ ks. contains ks k) same, contains-add n m.sources k),
      )

  sources_of-sort_sources :
      (j : Info) (m : SourceMap hash) (k : String)
      → contains (sources_of hash j (sort_sources hash m)) k ≡ contains (sources_of hash j m) k
  unfolding sources_of sort_sources
  sources_of-sort_sources j [] k = refl
  sources_of-sort_sources j ((d, names) ∷ m) k =
      ground (arith, sources_of-sort_sources j m k, contains-sorted names k)

  -- For configurations with different names, whatever the hash: a source is listed under a
  -- destination exactly if one of the destinations that its options name is the same key as that
  -- one; it is listed as without destination exactly if its options name none; and the sources are
  -- the names of the configurations.
  pub map_destinations_to_sources_lem :
      (classes : List DestinationClass) (configs : Dict (Dict Value)) (j : Info) (k : String)
      → NodupKeys configs
      → let m = map_destinations_to_sources hash classes configs in
        (contains (sources_of hash j m.dest_to_source_map) k ≡ names_in classes j configs k)
        × (contains m.sources_without_destinations k ≡ is_orphan classes configs k)
        × (contains m.sources k ≡ has k configs)
  unfolding map_destinations_to_sources sources_of contains
  map_destinations_to_sources_lem classes configs j k u =
      let m = map_configs hash classes configs (no_mapping hash) in
      let (orphans, sources) = orphans_lem classes configs (no_mapping hash) k u in
      (
        sources_of-sort_sources j m.dest_to_source_map k
            ∙ map_configs_lem classes configs (no_mapping hash) j k
            ∙ ground arith,
        contains-sorted m.sources_without_destinations k
            ∙ orphans
            ∙ ground (arith, no_orphan classes configs k),
        sources ∙ ground arith,
      )
