-- ===== src/Thread/Gather/Settled.antt =====
-- What `_get_data_common` does for a source with a submitted report.
use virt_who.Base.{
  ℕ, String, ◌≡◌, refl, ap, subst, ◌∙◌, Bool, true, false, ◌||◌, ◌&&◌, inl, inr, Option, none, some,
  [], ◌∷◌, if◌then◌else◌, arith, Bool-cases, Option-cases, ◌==◌, string_eq, same_text,
  same_text_self,
}
use virt_who.Base.Keys.{Keys}
use virt_who.Base.Dict.{Dict, lookup, erase, has, is_some, lookup-insert, lookup-erase}
use virt_who.Report.{Report, ReportState, created, processing, finished, failed, canceled}
use virt_who.Thread.{Setting, Thread}
use virt_who.Thread.Jobs.{check_report_status}
use virt_who.Thread.Gather.{
  ◌>>=◌, set_batch, is_duplicate, settle, check_submitted, gather_key, collect, gather_keys,
  get_data_common,
}
use virt_who.Thread.Gather.Untouched.{Submitted, submitted-check_report_status}

-- A chain that ended.
>>=-some :
    {A B : Type 0} (m : Option A) (f : A → Option B) {b : B}
    → (m >>= f) ≡ some b
    → (a : A) × (m ≡ some a) × (f a ≡ some b)
>>=-some none f h = cc
>>=-some (some a) f h = (a, refl, h)

module _ (setting : Setting) where
  -- A source without a submitted report has none either after another source was looked at, and one
  -- whose report was taken has none.
  settle_lem :
      (ignore : Bool) (k j : String) (report : Report) (s : ℕ × ℕ) (st : ReportState) (t : Thread)
      → has k (Submitted t) ≡ false
      → let o = settle setting ignore k report s st t in
        (has k (Submitted o.1) ≡ true → o.0 ≡ false)
        × ((k == j) ≡ false → has j (Submitted o.1) ≡ has j (Submitted t))
  unfolding settle
  settle_lem ignore k j report s created t h = (λ e. cc, λ e. refl)
  settle_lem ignore k j report s processing t h =
      (λ e. refl, λ e. ground (arith, lookup-insert k j s (Submitted t)))
  settle_lem ignore k j report s finished t h = (λ e. cc, λ e. refl)
  settle_lem ignore k j report s failed t h = (λ e. cc, λ e. refl)
  settle_lem ignore k j report s canceled t h = (λ e. cc, λ e. refl)

  -- What a round does for its own source, and for the others.
  abbrev RoundKeeps : String → Thread → Option (Option Report × Thread) → Type 0
  RoundKeeps k t none = Unit
  RoundKeeps k t (some (taken, t')) =
      (is_some taken ≡ true → has k (Submitted t') ≡ false)
      × ((j : String) → has j (Submitted t) ≡ false → has j (Submitted t') ≡ false)

  -- A source whose submitted report has been checked: `t` is the thread then.
  settled_round :
      (ignore : Bool) (k : String) (report : Report) (s : ℕ × ℕ) (st : ReportState) (old t : Thread)
      → has k (Submitted old) ≡ true
      → Submitted t ≡ erase k (Submitted old)
      → let o = settle setting ignore k report s st t in
        RoundKeeps k old (some (if o.0 then some report else none, o.1))
  settled_round ignore k report s st old t was e =
      let gone : has k (Submitted t) ≡ false =
        ap (has k) e ∙ ground (arith, lookup-erase k k (Submitted old), same_text_self k) in
      let o = settle setting ignore k report s st t in
      (
        λ taken. ground (arith, (settle_lem ignore k k report s st t gone).0),
        λ j h. ground (
          arith,
          (settle_lem ignore k j report s st t gone).1,
          same_text k j,
          ap (has j) e,
          lookup-erase k j (Submitted old),
        ),
      )

  gather_key-RoundKeeps :
      (fuel : ℕ) (ignore : Bool) (k : String) (t : Thread)
      → RoundKeeps k t (gather_key setting fuel ignore k t)
  unfolding gather_key check_submitted
  gather_key-RoundKeeps fuel ignore k t = elim (Option-cases (setting.source t.time k)) [
    | inl e ↦ rw (gather_key, e) (λ h. cc, λ j h. h)
    | inr (report, e) ↦ elim (Option-cases (lookup k (Submitted t))) [
      | inl free ↦
          elim (Bool-cases
            (is_duplicate setting ignore report (lookup k t.last_report_for_source))) [
              | inl old ↦ rw (gather_key, e, free, old) (λ h. cc, λ j h. h)
              | inr new ↦ rw (gather_key, e, free, new) (λ h. rw free refl, λ j h. h)
            ]
      | inr (s, pending) ↦
          elim (Option-cases (check_report_status setting fuel false (t.batches s.0) t)) [
            | inl spins ↦ rw (gather_key, e, pending, spins) tt
            | inr (x, checked) ↦
                rw (gather_key, e, pending, checked)
                  (settled_round ignore k report s x.0.state t
                    (record x.1 {
                      batches = set_batch s.0 x.0 x.1.batches;
                      submitted_report_and_hash_for_source = erase k (Submitted x.1);
                    })
                    (rw pending refl)
                    (ap (erase k) (
                      submitted-check_report_status setting fuel false (t.batches s.0) x.0 t x.1
                        checked)))
          ]
    ]
  ]

  has-collect :
      (k j : String) (taken : Option Report) (reports : Dict Report)
      → has j (collect setting k taken reports) ≡ (k == j && is_some taken || has j reports)
  has-collect k j none reports = ground (arith, same_text k j)
  has-collect k j (some report) reports = ground (arith, lookup-insert k j report reports)

  -- Every source with a report in hand has none that is still being processed.
  abbrev AllSettled : Dict Report → Thread → Type 0
  AllSettled reports t = (k : String) → has k reports ≡ true → has k (Submitted t) ≡ false

  collect-AllSettled :
      (k : String) (taken : Option Report) (reports : Dict Report) (t u : Thread)
      → AllSettled reports t
      → RoundKeeps k t (some (taken, u))
      → AllSettled (collect setting k taken reports) u
  collect-AllSettled k taken reports t u settled kept j listed = elim (Bool-cases (has j reports)) [
    | inl before ↦ kept.1 j (settled j before)
    | inr new ↦
        let own : (k == j && is_some taken) ≡ true =
          ground (arith, has-collect k j taken reports) in
        let same : k ≡ j = ground (arith, same_text k j) in
        subst (λ i. has i (Submitted u) ≡ false) same (kept.0 (ground arith))
  ]

  abbrev GatheredSettled : Option (Dict Report × Thread) → Type 0
  GatheredSettled none = Unit
  GatheredSettled (some (reports, t)) = AllSettled reports t

  gather_keys-AllSettled :
      (fuel : ℕ) (ignore : Bool) (ks : Keys) (reports reports' : Dict Report) (t t' : Thread)
      → AllSettled reports t
      → gather_keys setting fuel ignore ks reports t ≡ some (reports', t')
      → AllSettled reports' t'
  unfolding gather_keys
  gather_keys-AllSettled fuel ignore [] reports reports' t t' settled h =
      subst GatheredSettled h settled
  gather_keys-AllSettled fuel ignore (k ∷ ks) reports reports' t t' settled h =
      let (p, e, rest) = >>=-some (gather_key setting fuel ignore k t) _ h in
      gather_keys-AllSettled fuel ignore ks (collect setting k p.0 reports) reports' p.1 t'
        (collect-AllSettled k p.0 reports t p.1 settled
          (subst (RoundKeeps k t) e (gather_key-RoundKeeps fuel ignore k t)))
        rest

  -- A source whose report is handed over by `_get_data_common` has no submitted report any more: while
  -- its last job is still being processed, the source is passed over.
  pub get_data_common-settled :
      (fuel : ℕ) (ignore : Bool) (source_keys : Keys) (reports : Dict Report) (t t' : Thread)
      (k : String)
      → get_data_common setting fuel ignore source_keys t ≡ some (reports, t')
      → has k reports ≡ true
      → has k (Submitted t') ≡ false
  unfolding get_data_common lookup
  get_data_common-settled fuel ignore source_keys reports t t' k h =
      gather_keys-AllSettled fuel ignore source_keys [] reports t t' (λ j e. cc) h k
