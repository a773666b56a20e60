-- ===== src/Config/Section/Settled.antt =====
-- What `validate` of `ConfigSection` guarantees, whatever the section's options are. The methods are
-- any that leave the tracking sets alone; Config/Virt and Config/Global show that theirs do.
use mathlib.Core.Path.{ap₂}
use virt_who.Base.{
  String, ◌≡◌, ap, sym, subst, ◌∙◌, true, false, not, ◌&&◌, ◌||◌, is_empty, if◌then◌else◌, ok,
  arith, >>=-eq-ok,
}
use virt_who.Base.Keys.{contains, is_empty_of_none, not-is_empty_of, contains-empty}
use virt_who.Base.Dict.{has}
use virt_who.Config.Section.{Section, valid, invalid, state_of, has_value, has_default}
use virt_who.Config.Section.Validate.{Method, say, pre_validate, validate_base, validate}
use virt_who.Config.Section.Rounds.{KeepsTracking}
use virt_who.Config.Section.Steps.{has_target}
use virt_who.Config.Section.Passes.{
  Posted, Judged, post_validate-Posted, post_validate-state_of, validate_base-Judged, ok-injective,
}

module _ {M : Type 0} where
  -- What `_pre_validate` leaves alone.
  pre_validate_lem :
      (s : Section M)
      → ((pre_validate s).unvalidated_keys ≡ s.unvalidated_keys)
        × ((pre_validate s).invalid_keys ≡ s.invalid_keys)
        × ((pre_validate s).validation_methods ≡ s.validation_methods)
        × ((pre_validate s).destinations ≡ s.destinations)
        × ((pre_validate s).required_keys ≡ s.required_keys)
        × ((pre_validate s).defaults ≡ s.defaults)
  unfolding pre_validate say
  pre_validate_lem s = ground arith

  no_missing :
      (t : Section M)
      → (if not (is_empty t.invalid_keys)
            || is_empty t.values
            || not (is_empty t.missing_required_keys)
          then invalid
          else valid)
        ≡ valid
      → is_empty t.missing_required_keys ≡ true
  no_missing t h = ground arith

  -- The section between `_validate` and `_post_validate`, for a call that returned.
  record Ran (s t : Section M) : Type 0 where
    middle : Section M
    judged : Judged s middle
    posted : Posted middle t
    settled : t.state ≡ state_of t

  module _ (call : M → Method M) (keeps : KeepsTracking call) (s t : Section M)
      (h : validate call s ≡ ok t) where
    ran : Ran (pre_validate s) t
    unfolding validate
    ran =
        let (m, validated, e) = >>=-eq-ok (validate_base call (pre_validate s)) _ h in
        let done = ok-injective e in
        record {
          middle = m;
          judged = validate_base-Judged call keeps (pre_validate s) m validated;
          posted = subst (λ x. Posted m x) done (post_validate-Posted m);
          settled = subst (λ x. x.state ≡ state_of x) done (post_validate-state_of m);
        }

    -- Validation that returns leaves no key unvalidated, and the section is then valid exactly if it
    -- has no invalid key, some value, and no required key missing; otherwise it is invalid.
    pub validate-settled :
        (is_empty t.unvalidated_keys ≡ true)
        × (t.state ≡ (
            if not (is_empty t.invalid_keys)
              || is_empty t.values
              || not (is_empty t.missing_required_keys)
            then invalid
            else valid))
    unfolding state_of
    validate-settled =
        let empty =
          is_empty_of_none t.unvalidated_keys
            (λ j. ap (λ ks. contains ks j) ran.posted.same.unvalidated ∙ ran.judged.none_left j) in
        (empty, ran.settled ∙ rw empty)

    -- An option that was invalid before validation keeps the section invalid, whatever value it has
    -- been given since.
    pub validate-invalid : (k : String) → contains s.invalid_keys k ≡ true → t.state ≡ invalid
    validate-invalid k was =
        let before = ap (λ ks. contains ks k) (pre_validate_lem s).1 ∙ was in
        let after =
          ap (λ ks. contains ks k) ran.posted.same.invalid ∙ ran.judged.kept.invalid k before in
        validate-settled.1 ∙ rw (not-is_empty_of t.invalid_keys k after)

    -- An option that was set and that no method validates is gone after validation, unless it has a
    -- default or is where another option's value goes.
    pub validate-unknown :
        (k : String)
        → (contains s.unvalidated_keys k && not (has k s.validation_methods)) ≡ true
        → has_default s k ≡ false
        → has_target s.destinations k ≡ false
        → has_value t k ≡ false
    validate-unknown k marked no_default no_target =
        let (unvalidated, invalid_keys, methods, destinations, required, defaults) =
          pre_validate_lem s in
        let gone =
          ran.judged.dropped k
            (ap₂ (λ ks d. contains ks k && not (has k d)) unvalidated methods ∙ marked) in
        ran.posted.adds k
          (ap (λ d. has_target d k) (ran.judged.kept.destinations ∙ destinations) ∙ no_target)
          (rw (gone, ran.judged.kept.defaults, defaults) no_default)

    -- In a section that is valid after validation, every required option has a value, if the option
    -- is not one whose value moves to another.
    pub validate-required :
        (k : String)
        → contains s.required_keys k ≡ true
        → has k s.destinations ≡ false
        → t.state ≡ valid
        → has_value t k ≡ true
    validate-required k required stays ok_state =
        let (unvalidated, invalid_keys, methods, destinations, required_keys, defaults) =
          pre_validate_lem s in
        let mid = ran.middle in
        let wanted : contains mid.required_keys k ≡ true =
          ap (λ ks. contains ks k) (ran.judged.kept.required ∙ required_keys) ∙ required in
        let none_missing : contains t.missing_required_keys k ≡ false =
          contains-empty t.missing_required_keys k
            (no_missing t (sym validate-settled.1 ∙ ok_state)) in
        ran.posted.keeps k (ap (λ d. has k d) (ran.judged.kept.destinations ∙ destinations) ∙ stays)
          (ground (arith, ran.posted.missing k))
