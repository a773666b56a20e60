-- ===== src/Config/Methods.antt =====
-- The validation methods of virtwho/config.py: those of `ConfigSection`, `VirtConfigSection` and
-- `GlobalSection`.
pub mod Virt
pub mod Call
pub mod Tracking
pub mod Bounds
pub mod Typed
pub mod Corrupted
use virt_who.Base.{
  ℕ, String, Bool, true, false, not, ◌&&◌, ◌||◌, Option, none, some, List, [], ◌∷◌, ◌++◌, map, any,
  all, select, is_empty, ltb, if◌then◌else◌, Result, ok, raised, ◌>>=◌, Exception, key_error,
  value_error, type_error, attribute_error, ◌==◌, string_eq,
}
use virt_who.Base.Chars.{chars}
use Prim.Native.Char.{code}
use virt_who.Base.Dict.{Dict, lookup, insert, has}
use virt_who.Config.Value.{
  Value, none_value, not_set, bool, int, str, list, text_item, is_text, pos, ℤ, value_eq,
  str_to_bool, non_empty_string, to_int, below,
}
use virt_who.Config.ParseList.{parse_list}
use virt_who.Config.Section.{
  Section, Message, Level, error, warning, about, using_default, has_value, has_default, is_default,
  get_item,
}
use virt_who.Config.Section.Validate.{Method}

-- What the methods use of code outside the repository: `uuid.UUID` accepts a text, the version of
-- `requests` is below 2.20, and `Password.decrypt(unhexlify(text))`, which gives the password, fails
-- on a corrupted text, finds no key file, or raises another ValueError, as for a text outside ASCII or
-- one whose length is no multiple of a block.
pub data Decrypted : Type 0 where
  password : String → Decrypted
  corrupted invalid_key_file not_decrypted : Decrypted

pub record Environment : Type 0 where
  pub is_uuid : String → Bool
  pub old_requests : Bool
  pub decrypt : String → Decrypted

-- The methods by name. `hypervisor_id` has the class's `HYPERVISOR_ID`.
pub data Validator : Type 0 where
  section_type boolean non_empty a_list : Validator
  virt_type sm_type unencrypted_password encrypted_password username no_check server owner filter
        filter_type :
      Validator
  hypervisor_id : List String → Validator
  interval : Validator

abbrev pub Outcome : Type 0
Outcome = Result (Section Validator × List Message)

abbrev pub silent : Section Validator → Outcome
silent s = ok (s, [])

abbrev pub report : Level → String → String → Section Validator → Outcome
report level what k s = ok (s, record { level = level; body = about what k } ∷ [])

abbrev pub assign : String → Value → Section Validator → Section Validator
assign k v s = record s { values = insert k v s.values }

-- `value in (...)` for a tuple of texts.
unfoldable pub among : Value → List String → Bool
among v names = any (λ n. value_eq v (str n)) names

-- `self._values[key] = self.defaults[key]` with a warning.
unfoldable pub fall_back : String → String → Section Validator → Outcome
fall_back what k s = elim (lookup k s.defaults) [
  | none ↦ raised key_error
  | some d ↦ report warning what k (assign k d s)
]

-- `_validate_type`
unfoldable pub check_section_type : String → Section Validator → Outcome
check_section_type k s =
    if has_value s k
    then report error "Unsupported virtual type is set" k s
    else report error "Virtual type is not set" k s

-- The handler of `_validate_str_to_bool`.
unfoldable pub boolean_default : String → Section Validator → Outcome
boolean_default k s = elim (lookup k s.defaults) [
  | none ↦ report warning "must be a valid boolean, ignoring" k s
  | some d ↦ elim (str_to_bool d) [
    | raised e ↦ raised e
    | ok b ↦ report warning "must be a valid boolean, using default" k (assign k (bool b) s)
  ]
]

-- `_validate_str_to_bool`
unfoldable pub check_boolean : String → Section Validator → Outcome
unfolding boolean_default
check_boolean k s = elim (lookup k s.values) [
  | none ↦ boolean_default k s
  | some v ↦ elim (str_to_bool v) [
    | ok b ↦ silent (assign k (bool b) s)
    | raised e ↦ boolean_default k s
  ]
]

-- `_validate_non_empty_string`
unfoldable pub check_non_empty : String → Section Validator → Outcome
unfolding fall_back
check_non_empty k s = elim (lookup k s.values) [
  | none ↦ if has_default s k then silent s else report warning "not set" k s
  | some v ↦ elim (non_empty_string v) [
    | ok text ↦ silent s
    | raised e ↦
        if has_default s k
        then fall_back "is not set to a valid string or empty, using default" k s
        else report warning "is not set to a valid string or empty and has no default value" k s
  ]
]

-- The value of `_validate_list` that is not the default.
unfoldable pub list_of : String → Value → Section Validator → Outcome
list_of k (list items) s = silent (assign k (list (select is_text items)) s)
list_of k (str text) s = do
  items ← parse_list text
  silent (assign k (list (map text_item items)) s)
list_of k _ s = report warning "must be one or more strings, ignoring" k (assign k (list []) s)

-- `_validate_list`
unfoldable pub check_list : String → Section Validator → Outcome
unfolding list_of
check_list k s =
    if is_default s k then silent (assign k (list []) s) else do v ← get_item s k; list_of k v s

-- `_validate_interval`
abbrev pub minimum_send_interval : ℕ
minimum_send_interval = 60

abbrev pub default_interval : ℕ
default_interval = 3600

unfoldable pub interval_of : Value → ℤ
interval_of v = elim (to_int v) [ ok n ↦ n | raised e ↦ pos 0 ]

unfoldable pub check_interval : String → Section Validator → Outcome
unfolding interval_of
check_interval k s = elim (lookup k s.values) [
  | none ↦ report warning "is missing" k s
  | some v ↦
      let s' = assign k (int (interval_of v)) s in
      if below (interval_of v) minimum_send_interval
      then report warning "Interval value can't be lower, default value will be used" k
          (assign "interval" (int (pos default_interval)) s')
      else silent s'
]
