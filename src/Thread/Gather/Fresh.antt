-- ===== src/Thread/Gather/Fresh.antt =====
-- Which reports `_get_data_common` hands over when no job is outstanding.
use virt_who.Base.{
  ℕ, String, ◌≡◌, refl, ap, ◌∙◌, Bool, ◌&&◌, inl, inr, Option, none, some, [], ◌∷◌, if◌then◌else◌,
  arith, Bool-cases, Option-cases, ◌==◌, string_eq, same_text,
}
use virt_who.Base.Keys.{Keys, contains}
use virt_who.Base.Dict.{Dict, lookup, is_some, lookup-insert}
use virt_who.Report.{Report}
use virt_who.Thread.{Setting, Thread}
use virt_who.Thread.Gather.{is_duplicate, gather_key, collect, gather_keys, get_data_common}

module _ (setting : Setting) where
  -- The report of a source that nothing was submitted for.
  pub fresh : Bool → Thread → String → Option Report
  fresh ignore t k = elim (setting.source t.time k) [
    | none ↦ none
    | some report ↦
        if is_duplicate setting ignore report (lookup k t.last_report_for_source)
        then none
        else some report
  ]

  gather_key-free :
      (fuel : ℕ) (ignore : Bool) (k : String) (t : Thread)
      → lookup k t.submitted_report_and_hash_for_source ≡ none
      → gather_key setting fuel ignore k t ≡ some (fresh ignore t k, t)
  unfolding gather_key fresh
  gather_key-free fuel ignore k t free = elim (Option-cases (setting.source t.time k)) [
    | inl e ↦ rw (gather_key, fresh, e) refl
    | inr (report, e) ↦
        elim (Bool-cases (is_duplicate setting ignore report (lookup k t.last_report_for_source))) [
          | inl old ↦ rw (gather_key, fresh, e, free, old) refl
          | inr new ↦ rw (gather_key, fresh, e, free, new) refl
        ]
  ]

  lookup-collect :
      (k j : String) (taken : Option Report) (reports : Dict Report)
      → lookup j (collect setting k taken reports)
        ≡ (if k == j && is_some taken then taken else lookup j reports)
  lookup-collect k j none reports = ground arith
  lookup-collect k j (some report) reports = ground (arith, lookup-insert k j report reports)

  merge :
      (ignore : Bool) (j k : String) (ks : Keys) (reports : Dict Report) (t : Thread)
      → (if contains ks k && is_some (fresh ignore t k)
          then fresh ignore t k
          else lookup k (collect setting j (fresh ignore t j) reports))
        ≡ (if contains (j ∷ ks) k && is_some (fresh ignore t k)
            then fresh ignore t k
            else lookup k reports)
  unfolding contains
  merge ignore j k ks reports t = elim (Bool-cases (j == k)) [
    | inl same ↦
        let e : j ≡ k = ground (arith, same_text j k) in
        ground (arith, lookup-collect j k (fresh ignore t j) reports, ap (fresh ignore t) e)
    | inr other ↦ ground (arith, lookup-collect j k (fresh ignore t j) reports)
  ]

  gather_keys-free :
      (fuel : ℕ) (ignore : Bool) (ks : Keys) (reports : Dict Report) (t : Thread)
      → ((k : String) → lookup k t.submitted_report_and_hash_for_source ≡ none)
      → (r : Dict Report) × (gather_keys setting fuel ignore ks reports t ≡ some (r, t))
        × ((k : String)
            → lookup k r ≡ (
                if contains ks k && is_some (fresh ignore t k)
                then fresh ignore t k
                else lookup k reports))
  unfolding gather_keys contains
  gather_keys-free fuel ignore [] reports t free = (reports, refl, λ k. refl)
  gather_keys-free fuel ignore (j ∷ ks) reports t free =
      let (r, e, listed) =
        gather_keys-free fuel ignore ks (collect setting j (fresh ignore t j) reports) t free in
      (
        r,
        rw (gather_key-free fuel ignore j t (free j)) e,
        λ k. listed k ∙ merge ignore j k ks reports t,
      )

  -- When no source has a submitted report, `_get_data_common` ends, changes nothing of the thread, and
  -- hands over for each of the given sources the report that the datastore has for it, unless it has
  -- none, or the report's hash is the last one that was sent and duplicates are ignored.
  pub get_data_common-free :
      (fuel : ℕ) (ignore : Bool) (source_keys : Keys) (t : Thread)
      → ((k : String) → lookup k t.submitted_report_and_hash_for_source ≡ none)
      → (r : Dict Report) × (get_data_common setting fuel ignore source_keys t ≡ some (r, t))
        × ((k : String) → lookup k r ≡ (if contains source_keys k then fresh ignore t k else none))
  unfolding get_data_common lookup
  get_data_common-free fuel ignore source_keys t free =
      let (r, e, listed) = gather_keys-free fuel ignore source_keys [] t free in
      (r, e, λ k. listed k ∙ ground arith)
