-- ===== src/Report.antt =====
-- virtwho/virt/virt.py: guests, hypervisors and the reports about them.
pub mod Filter
use virt_who.Base.{
  ℕ, String, Bool, true, false, ◌||◌, Option, none, some, List, [], ◌∷◌, map, length, ◌+◌,
  if◌then◌else◌,
}
use virt_who.Base.Dict.{Dict}
use virt_who.Base.Sorted.{sort_by}

-- `Guest.STATE_*`
pub data GuestState : Type 0 where
  unknown running blocked paused shuting_down shutoff crashed pm_suspended : GuestState

pub record Guest : Type 0 where
  pub uuid : String
  pub virt_who_type : String
  pub state : GuestState

-- `Guest.toDict`, with its two attributes beside the others.
pub record GuestDict : Type 0 where
  pub guest_id : String
  pub state : GuestState
  pub virt_who_type : String
  pub active : ℕ

is_active : GuestState → Bool
is_active running = true
is_active paused = true
is_active _ = false

unfoldable pub guest_dict : Guest → GuestDict
unfolding is_active
guest_dict g = record {
  guest_id = g.uuid;
  state = g.state;
  virt_who_type = g.virt_who_type;
  active = if is_active g.state then 1 else 0;
}

pub record Hypervisor : Type 0 where
  pub hypervisor_id : String
  pub guest_ids : List Guest
  pub name : Option String
  pub facts : Option (Dict String)

-- `Hypervisor.toDict`: a name or facts of `None` are left out.
pub record HypervisorDict : Type 0 where
  pub hypervisor_id : String
  pub name : Option String
  pub guest_ids : List GuestDict
  pub facts : Option (Dict String)

unfoldable pub sorted_guests : List Guest → List GuestDict
unfolding guest_dict
sorted_guests gs = sort_by (λ (g : GuestDict). g.guest_id) (map guest_dict gs)

unfoldable pub hypervisor_dict : Hypervisor → HypervisorDict
unfolding sorted_guests
hypervisor_dict h = record {
  hypervisor_id = h.hypervisor_id;
  name = h.name;
  guest_ids = sorted_guests h.guest_ids;
  facts = h.facts;
}

-- `AbstractVirtReport.STATE_*`
pub data ReportState : Type 0 where
  created processing finished failed canceled : ReportState

-- `filter_type`: `None`, one of the two types that are known, or another value.
pub data FilterType : Type 0 where
  no_type wildcards regex other_type : FilterType

-- A `HostGuestAssociationReport`. A list of `None` or `NotSetSentinel` is `none`.
pub record Association : Type 0 where
  pub hypervisors : List Hypervisor
  pub exclude_hosts : Option (List String)
  pub filter_hosts : Option (List String)
  pub filter_type : FilterType

-- What the kinds of reports hold.
pub data Content : Type 0 where
  domain_list : List Guest → Option String → Content
  host_guest : Association → Content
  error_report : Content
  status_report : Content

-- A report: the name of its configuration, what the server has made of it, and its content.
pub record Report : Type 0 where
  pub config_name : String
  pub state : ReportState
  pub job_id : Option String
  pub content : Content

-- `sum(len(hypervisor.guestIds) for hypervisor in ...)`
unfoldable pub guest_count : List Hypervisor → ℕ
guest_count [] = 0
guest_count (h ∷ hs) = length h.guest_ids + guest_count hs
