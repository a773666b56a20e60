-- ===== src/Config/Section/Returns.antt =====
-- `validate` of `ConfigSection` returns if its methods do.
use virt_who.Base.{
  String, ◌≡◌, refl, ap, ◌∙◌, true, List, [], ◌∷◌, ◌++◌, is_empty, ok, arith, Bool-cases, inl, inr,
}
use virt_who.Base.Keys.{contains, discard, difference}
use virt_who.Base.Dict.{Dict, keys}
use virt_who.Config.Section.{Section, Message}
use virt_who.Config.Section.Validate.{
  Method, judge, unmark, pre_validate, post_validate, validate_key, validate_keys, finish,
  validate_marked, validate_base, validate,
}
use virt_who.Config.Section.Rounds.{KeepsTracking, validate_keys-marked, validate_keys-unmarked}

module _ {M : Type 0} where
  -- A family of methods that raise nothing.
  abbrev pub AlwaysReturns : (M → Method M) → Type 0
  AlwaysReturns call =
      (m : M) (k : String) (s : Section M) → (r : Section M × List Message) × (call m k s ≡ ok r)

  unvalidated-judge :
      (k : String) (messages : List Message) (s : Section M)
      → (judge k messages s).unvalidated_keys ≡ s.unvalidated_keys
  unfolding judge
  unvalidated-judge k messages s = ground arith

  unmark_returns :
      (k : String) (s : Section M)
      → contains s.unvalidated_keys k ≡ true
      → (t : Section M) × (unmark k s ≡ ok t)
  unfolding unmark
  unmark_returns k s marked =
      (record s { unvalidated_keys = discard k s.unvalidated_keys }, rw marked)

  module _ (call : M → Method M) (keeps : KeepsTracking call) (returns : AlwaysReturns call) where
    validate_key_returns :
        (k : String) (m : M) (s : Section M)
        → contains s.unvalidated_keys k ≡ true
        → (r : Section M × List Message) × (validate_key call k m s ≡ ok r)
    unfolding validate_key
    validate_key_returns k m s marked =
        let (r, e) = returns m k s in
        let same = keeps m k s r.0 r.1 e in
        let (t, u) =
          unmark_returns k (judge k r.1 r.0)
            (ap (λ ks. contains ks k) (unvalidated-judge k r.1 r.0 ∙ same.unvalidated) ∙ marked) in
        ((t, r.1), rw e (rw u))

    validate_keys_returns :
        (d : Dict M) (s : Section M) (old : List Message)
        → (r : Section M × List Message) × (validate_keys call d s old ≡ ok r)
    unfolding validate_keys
    validate_keys_returns [] s old = ((s, old), refl)
    validate_keys_returns ((k, m) ∷ d) s old = elim (Bool-cases (contains s.unvalidated_keys k)) [
      | inl marked ↦
          let (p, e) = validate_key_returns k m s marked in
          let (r, f) = validate_keys_returns d p.0 (old ++ p.1) in
          (r, validate_keys-marked call keeps k m d s old marked ∙ rw e f)
      | inr unmarked ↦
          let (r, f) = validate_keys_returns d s old in
          (r, validate_keys-unmarked call keeps k m d s old unmarked ∙ f)
    ]

    validate_marked_returns : (s : Section M) → (t : Section M) × (validate_marked call s ≡ ok t)
    unfolding validate_marked
    validate_marked_returns s =
        let unknown_keys = difference s.unvalidated_keys (keys s.validation_methods) in
        let start = record s { unvalidated_keys = difference s.unvalidated_keys unknown_keys } in
        let (r, e) = validate_keys_returns s.validation_methods start [] in
        (finish unknown_keys r, rw e)

    validate_base_returns : (s : Section M) → (t : Section M) × (validate_base call s ≡ ok t)
    unfolding validate_base
    validate_base_returns s = elim (Bool-cases (is_empty s.unvalidated_keys)) [
      | inl none_marked ↦ (s, rw none_marked)
      | inr some_marked ↦ let (t, e) = validate_marked_returns s in (t, rw some_marked e)
    ]

    -- Validation raises nothing if no method does: every key that the loop unmarks is still marked.
    pub validate_returns : (s : Section M) → (t : Section M) × (validate call s ≡ ok t)
    unfolding validate
    validate_returns s =
        let (m, e) = validate_base_returns (pre_validate s) in (post_validate m, rw e)
