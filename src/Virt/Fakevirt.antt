-- ===== src/Virt/Fakevirt.antt =====
-- virtwho/virt/fakevirt/fakevirt.py: hypervisors and guests read from a file.
pub mod RoundTrip
use virt_who.Base.{
  String, Bool, true, false, not, Option, none, some, List, [], ◌∷◌, map, if◌then◌else◌, Exception,
  key_error, value_error, type_error, index_error, attribute_error, io_error, Result, ok, raised,
  ◌>>=◌,
}
use virt_who.Base.Dict.{Dict, get_or}
use virt_who.Base.Method.{Finish, failure, success}
use virt_who.Config.Value.{Value, none_value, not_set, bool, int, str, list, str_to_bool}
use virt_who.Report.{
  GuestState, Guest, GuestDict, guest_dict, Hypervisor, HypervisorDict, hypervisor_dict,
}

-- The objects of the file, by the keys that are read. A key that is not there is `none`.
pub record Attributes : Type 0 where
  pub virt_who_type : Option String

pub record GuestDoc : Type 0 where
  pub guest_id : Option String
  pub state : Option GuestState
  pub attributes : Option Attributes

pub record HypervisorDoc : Type 0 where
  pub hypervisor_id : Option (Option String)
  pub guest_ids : Option (List GuestDoc)
  pub name : Option String
  pub facts : Option (Dict String)

-- A file: it cannot be read as JSON, or it has a list of hypervisors or none.
pub data File : Type 0 where
  unreadable : File
  document : Option (List HypervisorDoc) → File

-- A VirtError, or an exception that is not turned into one.
pub data FakeError : Type 0 where
  virt_error : FakeError
  escaped : Exception → FakeError

-- `d[key]`
abbrev pub subscript : {T : Type 0} → Option T → Result T
subscript none = raised key_error
subscript (some t) = ok t

abbrev pub virt_type_of : Option Attributes → String
virt_type_of none = "fake"
virt_type_of (some attributes) = get_or attributes.virt_who_type "fake"

unfoldable pub process_guest : GuestDoc → Result Guest
process_guest g = do
  id ← subscript g.guest_id
  state ← subscript g.state
  ok (record { uuid = id; virt_who_type = virt_type_of g.attributes; state = state })

unfoldable pub process_guests : List GuestDoc → Result (List Guest)
unfolding process_guest
process_guests [] = ok []
process_guests (g ∷ gs) = do
  guest ← process_guest g
  guests ← process_guests gs
  ok (guest ∷ guests)

unfoldable pub process_hypervisor : HypervisorDoc → Result Hypervisor
unfolding process_guests
process_hypervisor h = do
  docs ← subscript h.guest_ids
  guests ← process_guests docs
  outer ← subscript h.hypervisor_id
  id ← subscript outer
  ok (record { hypervisor_id = id; guest_ids = guests; name = h.name; facts = h.facts })

unfoldable pub process_hypervisors : List HypervisorDoc → Result (List Hypervisor)
unfolding process_hypervisor
process_hypervisors [] = ok []
process_hypervisors (h ∷ hs) = do
  hypervisor ← process_hypervisor h
  hypervisors ← process_hypervisors hs
  ok (hypervisor ∷ hypervisors)

-- `except KeyError` around the loop.
abbrev pub or_virt_error : {T : Type 0} → Result T → Finish FakeError T
or_virt_error (ok t) = success t
or_virt_error (raised key_error) = failure virt_error
or_virt_error (raised e) = failure (escaped e)

abbrev pub or_escaped : {T : Type 0} → Result T → Finish FakeError T
or_escaped (ok t) = success t
or_escaped (raised e) = failure (escaped e)

-- `read_host_guest_mapping_from_file(file_path)`
unfoldable pub read_host_guest_mapping : File → Finish FakeError (List Hypervisor)
unfolding process_hypervisors
read_host_guest_mapping unreadable = failure virt_error
read_host_guest_mapping (document hypervisors) =
    or_virt_error (subscript hypervisors >>= process_hypervisors)

-- `list_domains_from_file(file_path)`: the first hypervisor must not have an id.
unfoldable pub list_domains : File → Finish FakeError (List Guest)
unfolding process_guests
list_domains unreadable = failure virt_error
list_domains (document none) = failure (escaped key_error)
list_domains (document (some [])) = failure (escaped index_error)
list_domains (document (some (h ∷ hs))) = elim h.hypervisor_id [
  | some id ↦ failure virt_error
  | none ↦ or_escaped (subscript h.guest_ids >>= process_guests)
]

-- Whether a reading ends in an error of the key, or raises.
abbrev pub reading_error : {T : Type 0} → Finish FakeError T → Result Bool
reading_error (success t) = ok false
reading_error (failure virt_error) = ok true
reading_error (failure (escaped e)) = raised e

-- The last part of `_validate_fake_virt_file`, by a value that is neither `True` nor `False` otherwise.
unfoldable pub check_contents : Value → File → Result Bool
unfolding read_host_guest_mapping list_domains
check_contents (bool true) file = reading_error (read_host_guest_mapping file)
check_contents (bool false) file = reading_error (list_domains file)
check_contents _ file = ok false

-- `_validate_fake_virt_file(key)`: whether it reports an error, by the access to the file, the value
-- of `is_hypervisor` and the file.
unfoldable pub check_fake_virt_file : Bool → Value → File → Result Bool
unfolding check_contents
check_fake_virt_file accessible (str text) file =
    if accessible
    then elim (str_to_bool (str text)) [
      | ok b ↦ check_contents (bool b) file
      | raised value_error ↦ ok true
      | raised key_error ↦ raised key_error
      | raised type_error ↦ raised type_error
      | raised index_error ↦ raised index_error
      | raised attribute_error ↦ raised attribute_error
      | raised io_error ↦ raised io_error
    ]
    else ok true
check_fake_virt_file accessible value file =
    if accessible then check_contents value file else ok true

-- What `toDict` gives, as the file has it.
abbrev pub guest_doc : GuestDict → GuestDoc
guest_doc g = record {
  guest_id = some g.guest_id;
  state = some g.state;
  attributes = some (record { virt_who_type = some g.virt_who_type });
}

abbrev pub hypervisor_doc : HypervisorDict → HypervisorDoc
hypervisor_doc h = record {
  hypervisor_id = some (some h.hypervisor_id);
  guest_ids = some (map guest_doc h.guest_ids);
  name = h.name;
  facts = h.facts;
}
