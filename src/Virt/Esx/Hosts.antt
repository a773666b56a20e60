-- ===== src/Virt/Esx/Hosts.antt =====
-- `getHostGuestMapping`: how the hosts that the backend knows are reported.
use virt_who.Base.{
  String, Bool, true, false, not, ◌||◌, Option, none, some, List, [], ◌∷◌, ◌++◌, is_empty,
  if◌then◌else◌, ◌==◌, string_eq, key_error, attribute_error, Result, ok, raised, ◌>>=◌,
}
use virt_who.Base.Chars.{Chars, chars, join, is_char, is_space, strip}
use virt_who.Base.Dict.{Dict, lookup, get_or}
use virt_who.Report.{GuestState, unknown, running, paused, shutoff, Guest, Hypervisor}
use virt_who.Virt.Esx.{Property, text, machines, parent, Properties, Esx, entry}
use virt_who.Virt.Esx.Uuid.{as_text, text_at, vm_uuid}

-- What a section may have for `hypervisor_id`.
pub data HypervisorId : Type 0 where
  by_uuid by_hwuuid by_hostname : HypervisorId

-- The options, `re.search` by a pattern and a text, which may refuse the pattern, and the decoding of
-- a cluster's name.
pub record Options : Type 0 where
  pub hypervisor_id : HypervisorId
  pub exclude_host_parents : Option (List String)
  pub filter_host_parents : Option (List String)
  pub re_search : String → String → Result Bool
  pub urldecode : String → String

-- `seg.replace("*", ".*")`
abbrev pub dotted : Chars → Chars
dotted [] = []
dotted (c ∷ cs) = if is_char b'*' c then chars ".*" ++ dotted cs else c ∷ dotted cs

-- `except KeyError:`
abbrev pub unless_missing : {T : Type 0} → Result T → Result (Option T)
unless_missing (ok t) = ok (some t)
unless_missing (raised key_error) = ok none
unless_missing (raised e) = raised e

-- The name of a host with its domain, if that is not empty.
unfoldable pub host_name : Properties → Result String
host_name host = do
  name ← text_at "config.network.dnsConfig.hostName" host
  domain_name ← text_at "config.network.dnsConfig.domainName" host
  ok (
      if is_empty (chars domain_name)
      then name
      else join (chars name ++ (chars "." ++ chars domain_name)))

unfoldable pub power_state : Option Property → GuestState
power_state (some (text s)) =
    if s == "poweredOn"
    then running
    else if s == "suspended"
    then paused
    else if s == "poweredOff"
    then shutoff
    else unknown
power_state _ = unknown

-- Whether a machine that is known is reported: it needs a uuid that is not blank.
unfoldable pub has_uuid : Properties → Result Bool
has_uuid vm = elim (lookup "config.uuid" vm) [
  | none ↦ ok false
  | some v ↦ do s ← as_text v; ok (not (is_empty (strip is_space (chars s))))
]

-- The loop over the machines of a host.
unfoldable pub guests_of : Dict Properties → List String → Result (List Guest)
unfolding has_uuid power_state
guests_of vms [] = ok []
guests_of vms (id ∷ ids) = elim (lookup id vms) [
  | none ↦ guests_of vms ids
  | some vm ↦ do
    reported ← has_uuid vm
    if reported
        then (do
          uuid ← vm_uuid vm
          guests ← guests_of vms ids
          ok (
              record {
                uuid = uuid;
                virt_who_type = "esx";
                state = power_state (lookup "runtime.powerState" vm);
              }
              ∷ guests))
        else guests_of vms ids
]

-- The references of a host, which it must have.
unfoldable pub machines_of : Properties → Result (List String)
machines_of host = elim (lookup "vm" host) [
  | none ↦ raised key_error
  | some (machines ids) ↦ ok ids
  | some (text s) ↦ raised attribute_error
  | some (parent t v) ↦ raised attribute_error
]

module _ (options : Options) where
  abbrev pub matches_parent : String → String → Result Bool
  matches_parent seg value = options.re_search (join (dotted (chars seg))) value

  -- The loop over `exclude_host_parents` ends with the first match; that over `filter_host_parents`
  -- goes on to the end.
  unfoldable pub any_excluded : List String → String → Result Bool
  any_excluded [] value = ok false
  any_excluded (seg ∷ segs) value = do
    matched ← matches_parent seg value
    if matched then ok true else any_excluded segs value

  unfoldable pub any_included : List String → String → Bool → Result Bool
  any_included [] value found = ok found
  any_included (seg ∷ segs) value found = do
    matched ← matches_parent seg value
    any_included segs value (matched || found)

  abbrev pub included : String → Option (List String) → Result Bool
  included value none = ok true
  included value (some segs) = any_included segs value false

  -- `skip_for_parent(host_id, host)`
  unfoldable pub skip_for_parent : Properties → Result Bool
  unfolding any_excluded any_included
  skip_for_parent host = elim (lookup "parent" host) [
    | none ↦ raised key_error
    | some (text s) ↦ raised attribute_error
    | some (machines ids) ↦ raised attribute_error
    | some (parent type value) ↦ do
      excluded ← elim options.exclude_host_parents [
        | none ↦ ok false
        | some segs ↦ any_excluded segs value
      ]
      if excluded
          then ok true
          else (do found ← included value options.filter_host_parents; ok (not found))
  ]

  -- The id of a host.
  unfoldable pub id_of : HypervisorId → String → Properties → Result String
  unfolding host_name
  id_of by_uuid host_id host = text_at "hardware.systemInfo.uuid" host
  id_of by_hwuuid host_id host = ok host_id
  id_of by_hostname host_id host = host_name host

  -- The name of a host's cluster, if its parent is one.
  unfoldable pub cluster_fact : Dict Properties → Properties → Result (Dict String)
  cluster_fact clusters host = elim (lookup "parent" host) [
    | none ↦ raised key_error
    | some (text s) ↦ raised attribute_error
    | some (machines ids) ↦ raised attribute_error
    | some (parent type value) ↦
        if type == "ClusterComputeResource"
        then (do
          name ← text_at "name" (entry value clusters)
          ok (("hypervisor.cluster", options.urldecode name) ∷ []))
        else ok []
  ]

  -- The version of a host, if it has one that is not empty.
  abbrev pub version_fact : Option Property → Result (Dict String)
  version_fact none = ok []
  version_fact (some v) = do
    version ← as_text v
    ok (if is_empty (chars version) then [] else ("hypervisor.version", version) ∷ [])

  unfoldable pub facts_of : Dict Properties → Properties → Result (Dict String)
  unfolding cluster_fact
  facts_of clusters host = do
    cpu ← text_at "hardware.cpuInfo.numCpuPackages" host
    type ← as_text (get_or (lookup "config.product.name" host) (text "vmware"))
    uuid ← text_at "hardware.systemInfo.uuid" host
    cluster ← cluster_fact clusters host
    version ← version_fact (lookup "config.product.version" host)
    ok (
        ("cpu.cpu_socket(s)", cpu) ∷ ("hypervisor.type", type) ∷ ("dmi.system.uuid", uuid) ∷ cluster
        ++ version)

  -- A round for a host: none if it is skipped, or has no id or no name.
  unfoldable pub host_report : Esx → String → Properties → Result (Option Hypervisor)
  unfolding skip_for_parent id_of machines_of guests_of host_name facts_of
  host_report esx host_id host = do
    skipped ← skip_for_parent host
    if skipped then ok none else (do
      id ← unless_missing (id_of options.hypervisor_id host_id host)
      elim id [
        | none ↦ ok none
        | some uuid ↦ do
          ids ← machines_of host
          guests ← guests_of esx.vms ids
          name ← unless_missing (host_name host)
          elim name [
            | none ↦ ok none
            | some n ↦ do
              facts ← facts_of esx.clusters host
              ok (
                  some (record {
                    hypervisor_id = uuid;
                    guest_ids = guests;
                    name = some n;
                    facts = some facts;
                  }))
          ]
      ])

  abbrev pub append_host : Option Hypervisor → List Hypervisor → List Hypervisor
  append_host none hypervisors = hypervisors
  append_host (some h) hypervisors = h ∷ hypervisors

  -- `getHostGuestMapping()`
  unfoldable pub host_guest_mapping : Esx → Dict Properties → Result (List Hypervisor)
  unfolding host_report
  host_guest_mapping esx [] = ok []
  host_guest_mapping esx ((host_id, host) ∷ hosts) = do
    h ← host_report esx host_id host
    hypervisors ← host_guest_mapping esx hosts
    ok (append_host h hypervisors)

  unfoldable pub get_host_guest_mapping : Esx → Result (List Hypervisor)
  unfolding host_guest_mapping
  get_host_guest_mapping esx = host_guest_mapping esx esx.hosts
