-- ===== src/Config/Section/Passes.antt =====
-- What `_validate` and `_post_validate` of `ConfigSection` do to a section as a whole.
use virt_who.Base.{
  String, ◌≡◌, refl, ap, sym, subst, ◌∙◌, true, false, not, ◌&&◌, ◌||◌, List, [], is_empty, Result,
  ok, arith, Bool-cases, inl, inr, >>=-eq-ok,
}
use virt_who.Base.Keys.{
  Keys, contains, difference, union, contains-difference, contains-union, contains-empty,
}
use virt_who.Base.Dict.{keys, has, contains-keys}
use virt_who.Config.Section.{Section, Message, state_of, update_state, has_value, has_default}
use virt_who.Config.Section.Validate.{
  Method, say, check_required_keys, reset_to_defaults, apply_destinations, post_validate,
  validate_keys, finish, validate_marked, validate_base,
}
use virt_who.Config.Section.Rounds.{KeepsTracking, Kept, Kept-refl, validate_keys-Kept}
use virt_who.Config.Section.Steps.{
  Dropped, ignore_each-Dropped, SameKeys, SameKeys-trans, require_each_lem, reset_each_lem,
  move_each_lem, has_target,
}

module _ {M : Type 0} where
  -- What `_post_validate` does to a section.
  pub record Posted (s t : Section M) : Type 0 where
    pub same : SameKeys s t
    pub missing :
        (j : String)
        → contains t.missing_required_keys j ≡ (
            contains s.missing_required_keys j
            || contains s.required_keys j && not (has_value s j) && not (has_default s j))
    pub keeps :
        (j : String)
        → has j s.destinations ≡ false
        → (has_value s j || has_default s j) ≡ true
        → has_value t j ≡ true
    pub adds :
        (j : String)
        → has_target s.destinations j ≡ false
        → (has_value s j || has_default s j) ≡ false
        → has_value t j ≡ false

  reset_to_defaults_lem :
      (s : Section M) (j : String)
      → has_value (reset_to_defaults s) j ≡ (has_value s j || has_default s j)
  unfolding reset_to_defaults
  reset_to_defaults_lem s j = ground (
    arith,
    (reset_each_lem (union s.invalid_keys (keys s.defaults)) s).2 j,
    contains-union s.invalid_keys (keys s.defaults) j,
    contains-keys s.defaults j,
  )

  reset_to_defaults-SameKeys :
      (s : Section M)
      → SameKeys s (reset_to_defaults s)
        × ((reset_to_defaults s).missing_required_keys ≡ s.missing_required_keys)
  unfolding reset_to_defaults
  reset_to_defaults-SameKeys s =
      let all_three = reset_each_lem (union s.invalid_keys (keys s.defaults)) s in
      (all_three.0, all_three.1)

  -- The three passes, one after the other.
  module _ (s s1 s2 s3 : Section M)
      (one : SameKeys s s1
        × (s1.values ≡ s.values)
        × ((j : String)
            → contains s1.missing_required_keys j ≡ (
                contains s.missing_required_keys j
                || contains s.required_keys j && not (has_value s j) && not (has_default s j))))
      (two : SameKeys s1 s2 × (s2.missing_required_keys ≡ s1.missing_required_keys))
      (filled : (j : String) → has_value s2 j ≡ (has_value s1 j || has_default s1 j))
      (three : SameKeys s2 s3
        × (s3.missing_required_keys ≡ s2.missing_required_keys)
        × ((j : String)
            → has j s2.destinations ≡ false
            → has_value s2 j ≡ true
            → has_value s3 j ≡ true)
        × ((j : String)
            → has_target s2.destinations j ≡ false
            → has_value s2 j ≡ false
            → has_value s3 j ≡ false)) where
    passes_filled : (j : String) → has_value s2 j ≡ (has_value s j || has_default s j)
    passes_filled j = filled j ∙ rw (one.1, one.0.defaults)

    passes_destinations : s2.destinations ≡ s.destinations
    passes_destinations = two.0.destinations ∙ one.0.destinations

    passes_Posted : Posted s s3
    passes_Posted = record {
      same = SameKeys-trans one.0 (SameKeys-trans two.0 three.0);
      missing = λ j. ap (λ ks. contains ks j) (three.1 ∙ two.1) ∙ one.2 j;
      keeps = λ j h v. three.2 j (ap (has j) passes_destinations ∙ h) (passes_filled j ∙ v);
      adds = λ j h v.
          three.3 j (ap (λ d. has_target d j) passes_destinations ∙ h) (passes_filled j ∙ v);
    }

  Posted-update_state : {s t : Section M} → Posted s t → Posted s (update_state t)
  unfolding update_state
  Posted-update_state p = record {
    same = record {
      unvalidated = p.same.unvalidated;
      invalid = p.same.invalid;
      defaults = p.same.defaults;
      destinations = p.same.destinations;
      required = p.same.required;
    };
    missing = p.missing;
    keeps = p.keeps;
    adds = p.adds;
  }

  pub post_validate-Posted : (s : Section M) → Posted s (post_validate s)
  unfolding post_validate check_required_keys apply_destinations
  post_validate-Posted s =
      let s1 = check_required_keys s in
      let s2 = reset_to_defaults s1 in
      Posted-update_state (
        passes_Posted s s1 s2 (apply_destinations s2) (require_each_lem s.required_keys s)
          (reset_to_defaults-SameKeys s1) (reset_to_defaults_lem s1)
          (move_each_lem s2.destinations s2))

  pub post_validate-state_of :
      (s : Section M) → (post_validate s).state ≡ state_of (post_validate s)
  unfolding post_validate update_state state_of
  post_validate-state_of s = refl

  -- What `_validate` does to a section that has keys to validate.
  pub record Judged (s t : Section M) : Type 0 where
    pub kept : Kept s t
    pub none_left : (j : String) → contains t.unvalidated_keys j ≡ false
    pub dropped :
        (j : String)
        → (contains s.unvalidated_keys j && not (has j s.validation_methods)) ≡ true
        → has_value t j ≡ false

  judged :
      (s s' t : Section M) (unknown_keys : Keys)
      → ((j : String)
          → contains unknown_keys j
            ≡ (contains s.unvalidated_keys j && not (has j s.validation_methods)))
      → Kept s s'
      → ((j : String) → contains s'.unvalidated_keys j ≡ false)
      → Dropped unknown_keys s' t
      → Judged s t
  judged s s' t unknown_keys is_unknown kept empty gone = record {
    kept = record {
      invalid = λ k h. ap (λ ks. contains ks k) gone.invalid ∙ kept.invalid k h;
      defaults = gone.defaults ∙ kept.defaults;
      destinations = gone.destinations ∙ kept.destinations;
      required = gone.required ∙ kept.required;
    };
    none_left = λ j. ap (λ ks. contains ks j) gone.unvalidated ∙ empty j;
    dropped = λ j h. ground (arith, gone.values j, is_unknown j);
  }

  Judged-say :
      {s t : Section M} (messages : List Message)
      → Judged s t
      → Judged s (say messages (update_state t))
  unfolding say update_state
  Judged-say messages j = record {
    kept = record {
      invalid = j.kept.invalid;
      defaults = j.kept.defaults;
      destinations = j.kept.destinations;
      required = j.kept.required;
    };
    none_left = j.none_left;
    dropped = j.dropped;
  }

  unknown_lem :
      (s : Section M) (j : String)
      → contains (difference s.unvalidated_keys (keys s.validation_methods)) j
        ≡ (contains s.unvalidated_keys j && not (has j s.validation_methods))
  unknown_lem s j =
      contains-difference s.unvalidated_keys (keys s.validation_methods) j
      ∙ rw (contains-keys s.validation_methods j)

  -- Once the unknown keys are set aside, the loop over the methods leaves no key marked.
  known_lem :
      (s : Section M) (j : String)
      → (contains
            (difference s.unvalidated_keys
              (difference s.unvalidated_keys (keys s.validation_methods)))
            j
          && not (has j s.validation_methods))
        ≡ false
  known_lem s j = ground (
    arith,
    contains-difference s.unvalidated_keys
        (difference s.unvalidated_keys (keys s.validation_methods)) j,
    unknown_lem s j,
  )

  pub ok-injective : {s t : Section M} → ◌≡◌ {A = Result (Section M)} (ok s) (ok t) → s ≡ t
  ok-injective e = cc

  module _ (call : M → Method M) (keeps : KeepsTracking call) where
    validate_marked-Judged : (s t : Section M) → validate_marked call s ≡ ok t → Judged s t
    unfolding validate_marked finish
    validate_marked-Judged s t h =
        let unknown_keys = difference s.unvalidated_keys (keys s.validation_methods) in
        let start = record s { unvalidated_keys = difference s.unvalidated_keys unknown_keys } in
        let (p, looped, rest) = >>=-eq-ok (validate_keys call s.validation_methods start []) _ h in
        let (kept, left) =
          validate_keys-Kept call keeps s.validation_methods start p.0 [] p.1 looped in
        let own : Kept s p.0 = record {
          invalid = kept.invalid;
          defaults = kept.defaults;
          destinations = kept.destinations;
          required = kept.required;
        } in
        subst (λ x. Judged s x) (ok-injective rest)
          (Judged-say _ (
            judged s p.0 _ unknown_keys (unknown_lem s) own (λ j. left j ∙ known_lem s j)
              (ignore_each-Dropped unknown_keys p.0 p.1)))

    pub validate_base-Judged : (s t : Section M) → validate_base call s ≡ ok t → Judged s t
    unfolding validate_base
    validate_base-Judged s t h = elim (Bool-cases (is_empty s.unvalidated_keys)) [
      | inl none_marked ↦
          subst (λ x. Judged s x) (ok-injective (sym (validate_base-none s none_marked) ∙ h))
            (record {
              kept = Kept-refl s;
              none_left = λ j. contains-empty s.unvalidated_keys j none_marked;
              dropped = λ j g. ground (arith, contains-empty s.unvalidated_keys j none_marked);
            })
      | inr some_marked ↦ validate_marked-Judged s t (sym (validate_base-some s some_marked) ∙ h)
    ]
      where
        validate_base-none :
            (s : Section M) → is_empty s.unvalidated_keys ≡ true → validate_base call s ≡ ok s
        validate_base-none s e = rw e

        validate_base-some :
            (s : Section M)
            → is_empty s.unvalidated_keys ≡ false
            → validate_base call s ≡ validate_marked call s
        validate_base-some s e = rw e
