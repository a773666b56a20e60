-- ===== src/Config/Virt/Required.antt =====
-- Which options a valid section for Satellite 5 has.
use virt_who.Base.{
  String, ◌≡◌, ap, sym, subst, Bool-cases, ◌∙◌, true, false, some, [], ◌∷◌, ok, arith, ◌==◌,
  string_eq, same_text, >>=-eq-ok, Option-cases, inl, inr,
}
use virt_who.Base.Keys.{Keys, contains, union, contains-union, contains-discard}
use virt_who.Base.Dict.{lookup, has, lookup-erase}
use virt_who.Config.Value.{Value, str, value_eq}
use virt_who.Config.Section.{Section, valid, has_value, set_item}
use virt_who.Config.Section.Define.{remove_key}
use virt_who.Config.Section.Items.{values-set_item}
use virt_who.Config.Section.Settled.{validate-required}
use virt_who.Config.Methods.{Validator, Environment}
use virt_who.Config.Methods.Virt.{sat5}
use virt_who.Config.Methods.Call.{call}
use virt_who.Config.Methods.Tracking.{call-KeepsTracking}
use virt_who.Config.Virt.{adopt_virt_type, set_virt_item, set_required, validate_virt}

-- `Satellite5DestinationInfo.required_kwargs`
abbrev pub sat5_required : Keys
sat5_required = "sat_server" ∷ "sat_username" ∷ "sat_password" ∷ []

lookup-adopt :
    (s : Section Validator)
    → lookup "sm_type" (adopt_virt_type s).values ≡ lookup "sm_type" s.values
unfolding adopt_virt_type remove_key
lookup-adopt s = elim (Option-cases (lookup "virt_type" s.values)) [
  | inl e ↦ ground arith
  | inr (v, e) ↦ ground (
    arith,
    values-set_item "type" v s "sm_type",
    lookup-erase "virt_type" "sm_type" (set_virt_item "type" v s).values,
  )
]

not-owner : (k : String) → contains sat5_required k ≡ true → ("owner" == k) ≡ false
unfolding contains
not-owner k wanted = elim (Bool-cases ("owner" == k)) [
  | inl same ↦
      let owner_wanted : contains sat5_required "owner" ≡ true =
        subst (λ x. contains sat5_required x ≡ true) (sym ((same_text "owner" k).0 same)) wanted in
      cc
  | inr other ↦ other
]

set_required-sat5 :
    (s t : Section Validator) (v : Value) (k : String)
    → lookup "sm_type" s.values ≡ some v
    → value_eq v (str sat5) ≡ true
    → set_required s ≡ ok t
    → contains sat5_required k ≡ true
    → contains t.required_keys k ≡ true
unfolding set_required
set_required-sat5 s t v k e sat h wanted = ground (
  arith,
  contains-discard "owner" (union s.required_keys sat5_required) k,
  contains-union s.required_keys sat5_required k,
  not-owner k wanted,
)

same-set_required :
    (s t : Section Validator) → set_required s ≡ ok t → (t.destinations ≡ s.destinations)
unfolding set_required
same-set_required s t h = ground arith

destinations-adopt :
    (s : Section Validator) (k : String)
    → has k s.destinations ≡ false
    → has k (adopt_virt_type s).destinations ≡ false
unfolding adopt_virt_type remove_key set_virt_item set_item
destinations-adopt s k h = ground (arith, lookup-erase "virt_type" k s.destinations)

-- A section for Satellite 5 that is valid after validation has a value for each of the server, the
-- user name and the password of the Satellite.
pub validate_virt-sat5 :
    (env : Environment) (s t : Section Validator) (v : Value) (k : String)
    → lookup "sm_type" s.values ≡ some v
    → value_eq v (str sat5) ≡ true
    → has k s.destinations ≡ false
    → contains sat5_required k ≡ true
    → validate_virt env s ≡ ok t
    → t.state ≡ valid
    → has_value t k ≡ true
unfolding validate_virt
validate_virt-sat5 env s t v k e sat stays wanted h is_valid =
    let (m, adjusted, run) = >>=-eq-ok (set_required (adopt_virt_type s)) _ h in
    validate-required (call env) (call-KeepsTracking env) m t run k
      (set_required-sat5 (adopt_virt_type s) m v k (lookup-adopt s ∙ e) sat adjusted wanted)
      (ap (has k) (same-set_required (adopt_virt_type s) m adjusted) ∙ destinations-adopt s k stays)
      is_valid
