-- ===== src/Config/Methods/Virt.antt =====
-- The validation methods of `VirtConfigSection`.
use Prim.Native.Char.{code}
use virt_who.Base.{
  String, Bool, false, not, ◌&&◌, Option, none, some, List, [], ◌∷◌, ◌++◌, any, all, is_empty, leb,
  if◌then◌else◌, Result, ok, raised, ◌>>=◌, key_error, value_error, type_error, attribute_error,
  string_eq,
}
use virt_who.Base.Chars.{chars}
use virt_who.Base.Dict.{lookup, get_or}
use virt_who.Config.Value.{
  Value, none_value, not_set, str, list, Item, text_item, number_item, value_eq, non_empty_string,
}
use virt_who.Config.Section.{Section, Message, error, warning, about, has_value}
use virt_who.Config.Methods.{
  Validator, Environment, Decrypted, password, corrupted, invalid_key_file, not_decrypted, Outcome,
  silent, report, assign, among, fall_back, check_list,
}

abbrev pub vw_types : List String
vw_types = "esx" ∷ "libvirt" ∷ "hyperv" ∷ "fake" ∷ "kubevirt" ∷ "ahv" ∷ []

abbrev pub filter_types : List String
filter_types = "regex" ∷ "wildcards" ∷ []

abbrev pub sat5 : String
sat5 = "satellite"

abbrev pub sat6 : String
sat6 = "sam"

-- `_validate_virt_type`
unfoldable pub check_virt_type : String → Section Validator → Outcome
check_virt_type k s = elim (lookup k s.values) [
  | none ↦ report warning "Virt. type is not set, using default" k s
  | some v ↦
      if among v vw_types
      then silent s
      else fall_back "Unsupported virt. type is set, using default" k s
]

-- `_validate_sm_type`
unfoldable pub check_sm_type : String → Section Validator → Outcome
check_sm_type k s = elim (lookup "sm_type" s.values) [
  | none ↦ report error "Unknown destination type" k s
  | some v ↦ elim (non_empty_string v) [
    | raised e ↦ report error "Value is not a string, or String is empty" k s
    | ok text ↦
        if among (str text) (sat5 ∷ sat6 ∷ []) then silent s else report error "must be one of" k s
  ]
]

-- `_validate_hypervisor_id`
unfoldable pub check_hypervisor_id : List String → String → Section Validator → Outcome
check_hypervisor_id allowed k s = elim (lookup k s.values) [
  | none ↦ silent s
  | some v ↦
      if not (is_empty allowed) && not (among v allowed)
      then report error "Invalid option for hypervisor_id, use one of" k s
      else silent s
]

-- `value.encode('latin1')` under an old version of requests: whether it fails, or that `value` has
-- no such method.
unfoldable pub latin1_fails : Environment → Value → Result Bool
latin1_fails env v =
    if env.old_requests
    then elim v [
      | str text ↦ ok (not (all (λ c. leb (code c) 255) (chars text)))
      | _ ↦ raised attribute_error
    ]
    else ok false

-- `_validate_unencrypted_password`, which `_validate_username` differs from in no effect: a value is
-- never `bytes`, so the second test of the first is not reached.
unfoldable pub check_latin1 : Environment → String → Section Validator → Outcome
check_latin1 env k s = elim (lookup k s.values) [
  | none ↦ report warning "was not set in configuration" k s
  | some v ↦ if value_eq v not_set then silent s else do
    failed ← latin1_fails env v
    if failed then report error "is not in latin1 encoding" k s else silent s
]

-- `_validate_username`
abbrev pub check_username : Environment → String → Section Validator → Outcome
check_username env k s = check_latin1 env k s

-- `Password.decrypt(unhexlify(pwd))`; a value that is no text is a TypeError of `unhexlify`, which
-- the method handles as a corrupted one.
unfoldable pub decrypted : Environment → Value → Decrypted
decrypted env v = elim v [ str text ↦ env.decrypt text | _ ↦ corrupted ]

-- `_validate_encrypted_password`
unfoldable pub check_encrypted_password : Environment → String → Section Validator → Outcome
check_encrypted_password env k s = elim (lookup k s.destinations) [
  | none ↦ raised key_error
  | some destination ↦ elim (lookup k s.values) [
    | none ↦ report warning "was not set in configuration" k s
    | some v ↦ elim (decrypted env v) [
      | password text ↦ silent (assign destination (str text) s)
      | corrupted ↦ report warning "cannot be decrypted, possibly corrupted" k s
      | invalid_key_file ↦ report error "Unable to read key file" k s
      | not_decrypted ↦ raised value_error
    ]
  ]
]

-- `len(value) == 0`
unfoldable pub has_no_items : Value → Result Bool
has_no_items (str text) = ok (is_empty (chars text))
has_no_items (list items) = ok (is_empty items)
has_no_items _ = raised type_error

-- The branch of `_validate_server` without a server.
unfoldable pub server_missing : String → Section Validator → Outcome
server_missing k s = elim (lookup "type" s.values) [
  | none ↦ report error "needs to be set in config" k s
  | some virt_type ↦
      if among virt_type ("libvirt" ∷ "fake" ∷ [])
      then silent (assign k (str "") s)
      else report error "needs to be set in config" k s
]

-- `_validate_server`
unfoldable pub check_server : String → Section Validator → Outcome
check_server k s = elim (lookup k s.values) [
  | none ↦ server_missing k s
  | some v ↦ do empty ← has_no_items v; if empty then server_missing k s else silent s
]

-- `_validate_owner`
unfoldable pub check_owner : String → Section Validator → Outcome
check_owner k s = elim (lookup "sm_type" s.values) [
  | none ↦ raised key_error
  | some sm_type ↦
      let virt_type = get_or (lookup "type" s.values) none_value in
      if value_eq sm_type (str sat6)
        && among virt_type ("esx" ∷ "hyperv" ∷ "ahv" ∷ [])
        && not (has_value s k)
      then report warning "needs to be set in config" k s
      else silent s
]

-- `_validate_filter_type`
unfoldable pub check_filter_type : String → Section Validator → Outcome
check_filter_type k s =
    if among (get_or (lookup "filter_type" s.values) none_value) filter_types
    then silent s
    else report error "must be one of" k s

-- The texts of a list, which has nothing else once it is valid.
texts_of : List Item → List String
texts_of [] = []
texts_of (text_item s ∷ items) = s ∷ texts_of items
texts_of (number_item n ∷ items) = texts_of items

items_of : Option Value → List String
items_of (some (list items)) = texts_of items
items_of _ = []

-- The rest of `_validate_filter`, once the list is valid.
unfoldable pub filter_warnings : Environment → String → Section Validator → List Message
unfolding items_of texts_of
filter_warnings env k s =
    (if not (value_eq (get_or (lookup "hypervisor_id" s.values) none_value) (str "uuid"))
        && any env.is_uuid (items_of (lookup k s.values))
      then record { level = warning; body = about "Filter values appear to be UUIDs" k } ∷ []
      else [])
    ++ (if has_value s "filter_type"
        then []
        else record { level = warning; body = about "filter_type is not set" k } ∷ [])

-- `_validate_filter`
unfoldable pub check_filter : Environment → String → Section Validator → Outcome
check_filter env k s = do
  (s', messages) ← check_list k s
  if is_empty messages then ok (s', filter_warnings env k s') else ok (s', messages)
