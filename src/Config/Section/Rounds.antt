-- ===== src/Config/Section/Rounds.antt =====
-- What the rounds of `validate` leave as they were, and what they change: lemmas for each loop.
use virt_who.Base.{
  String, ◌≡◌, refl, ap, sym, subst, ◌∙◌, true, false, not, ◌&&◌, List, [], ◌∷◌, ◌++◌,
  if◌then◌else◌, Result, ok, ◌>>=◌, arith, ◌==◌, string_eq, same_text, Bool-cases, inl, inr,
  >>=-eq-ok,
}
use virt_who.Base.Keys.{contains, contains-add, contains-discard}
use virt_who.Base.Dict.{Dict, lookup, has}
use virt_who.Config.Section.{Section, Message}
use virt_who.Config.Section.Validate.{Method, judge, unmark, validate_key, validate_keys}

module _ {M : Type 0} where
  -- What a validation method does not touch: all but the values and the messages.
  pub record SameTracking (s t : Section M) : Type 0 where
    pub unvalidated : t.unvalidated_keys ≡ s.unvalidated_keys
    pub invalid : t.invalid_keys ≡ s.invalid_keys
    pub defaults : t.defaults ≡ s.defaults
    pub methods : t.validation_methods ≡ s.validation_methods
    pub destinations : t.destinations ≡ s.destinations
    pub required : t.required_keys ≡ s.required_keys
    pub missing : t.missing_required_keys ≡ s.missing_required_keys
    pub restricted : t.restricted ≡ s.restricted

  -- What the loop of `_validate` keeps. Invalid keys are only added.
  pub record Kept (s t : Section M) : Type 0 where
    pub invalid : (k : String) → contains s.invalid_keys k ≡ true → contains t.invalid_keys k ≡ true
    pub defaults : t.defaults ≡ s.defaults
    pub destinations : t.destinations ≡ s.destinations
    pub required : t.required_keys ≡ s.required_keys

  pub Kept-refl : (s : Section M) → Kept s s
  Kept-refl s = record { invalid = λ k h. h; defaults = refl; destinations = refl; required = refl }

  pub Kept-trans : {s t u : Section M} → Kept s t → Kept t u → Kept s u
  Kept-trans a b = record {
    invalid = λ k h. b.invalid k (a.invalid k h);
    defaults = b.defaults ∙ a.defaults;
    destinations = b.destinations ∙ a.destinations;
    required = b.required ∙ a.required;
  }

  -- A family of methods that leave the tracking alone.
  abbrev pub KeepsTracking : (M → Method M) → Type 0
  KeepsTracking call =
      (m : M) (k : String) (s t : Section M) (messages : List Message)
      → call m k s ≡ ok (t, messages)
      → SameTracking s t

  SameTracking-Kept : {s t : Section M} → SameTracking s t → Kept s t
  SameTracking-Kept same = record {
    invalid = λ k h. ap (λ ks. contains ks k) same.invalid ∙ h;
    defaults = same.defaults;
    destinations = same.destinations;
    required = same.required;
  }

  ok_pair_left :
      (u t : Section M) {l r : List Message}
      → ◌≡◌ {A = Result (Section M × List Message)} (ok (u, l)) (ok (t, r))
      → u ≡ t
  ok_pair_left u t e = cc

  unmark-judge :
      (k : String) (messages : List Message) (s t : Section M)
      → unmark k (judge k messages s) ≡ ok t
      → Kept s t
        × ((j : String)
            → contains t.unvalidated_keys j
              ≡ (if k == j then false else contains s.unvalidated_keys j))
  unfolding unmark judge
  unmark-judge k messages s t h = (
    record {
      invalid = λ j g. ground (arith, contains-add k s.invalid_keys j);
      defaults = ground arith;
      destinations = ground arith;
      required = ground arith;
    },
    λ j. ground (arith, contains-discard k s.unvalidated_keys j),
  )

  module _ (call : M → Method M) (keeps : KeepsTracking call) where
    validate_key-Kept :
        (k : String) (m : M) (s t : Section M) (messages : List Message)
        → validate_key call k m s ≡ ok (t, messages)
        → Kept s t
          × ((j : String)
              → contains t.unvalidated_keys j
                ≡ (if k == j then false else contains s.unvalidated_keys j))
    unfolding validate_key
    validate_key-Kept k m s t messages h =
        let (p, called, rest) = >>=-eq-ok (call m k s) _ h in
        let (u, unmarked, e) = >>=-eq-ok (unmark k (judge k p.1 p.0)) _ rest in
        let same = keeps m k s p.0 p.1 called in
        let (kept, gone) = unmark-judge k p.1 p.0 t (unmarked ∙ ap ok (ok_pair_left u t e)) in
        (
          Kept-trans (SameTracking-Kept same) kept,
          λ j. gone j ∙ ap (λ ks. if k == j then false else contains ks j) same.unvalidated,
        )

    pub validate_keys-marked :
        (k : String) (m : M) (d : Dict M) (s : Section M) (old : List Message)
        → contains s.unvalidated_keys k ≡ true
        → validate_keys call ((k, m) ∷ d) s old
          ≡ (validate_key call k m s >>= λ r. validate_keys call d r.0 (old ++ r.1))
    unfolding validate_keys
    validate_keys-marked k m d s old marked = rw (marked, validate_keys)

    pub validate_keys-unmarked :
        (k : String) (m : M) (d : Dict M) (s : Section M) (old : List Message)
        → contains s.unvalidated_keys k ≡ false
        → validate_keys call ((k, m) ∷ d) s old ≡ validate_keys call d s old
    unfolding validate_keys
    validate_keys-unmarked k m d s old unmarked = rw (unmarked, validate_keys)

    -- The loop keeps all that `Kept` says, and unmarks the keys that have a method, and only those.
    pub validate_keys-Kept :
        (d : Dict M) (s t : Section M) (old messages : List Message)
        → validate_keys call d s old ≡ ok (t, messages)
        → Kept s t
          × ((j : String)
              → contains t.unvalidated_keys j ≡ (contains s.unvalidated_keys j && not (has j d)))
    unfolding validate_keys lookup
    validate_keys-Kept [] s t old messages h =
        let e = ok_pair_left s t h in
        (subst (λ x. Kept s x) e (Kept-refl s), λ j. rw (← e) (ground arith))
    validate_keys-Kept ((k, m) ∷ d) s t old messages h =
        elim (Bool-cases (contains s.unvalidated_keys k)) [
          | inl marked ↦
              let (p, done, rest) =
                >>=-eq-ok (validate_key call k m s) _
                  (sym (validate_keys-marked k m d s old marked) ∙ h) in
              let (kept, gone) = validate_key-Kept k m s p.0 p.1 done in
              let (kept', gone') = validate_keys-Kept d p.0 t (old ++ p.1) messages rest in
              (Kept-trans kept kept', λ j. ground (arith, gone j, gone' j, same_text k j))
          | inr unmarked ↦
              let (kept, gone) =
                validate_keys-Kept d s t old messages
                  (sym (validate_keys-unmarked k m d s old unmarked) ∙ h) in
              (kept, λ j. ground (arith, gone j, same_text k j))
        ]
