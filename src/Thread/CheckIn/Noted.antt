-- ===== src/Thread/CheckIn/Noted.antt =====
-- What `_send_data` notes of a check-in that was accepted.
use virt_who.Base.{
  ℕ, ◌<◌, nat_eq_iff, String, ◌≡◌, refl, sym, subst, ◌∙◌, true, inl, inr, Option, some, [], ◌∷◌,
  if◌then◌else◌, arith, Bool-cases, Option-cases, ◌==◌, string_eq, same_text,
}
use virt_who.Base.Keys.{Keys, contains}
use virt_who.Base.Dict.{Dict, lookup, insert, lookup-insert}
use virt_who.Report.{Report, ReportState}
use virt_who.Thread.{Setting, Thread}
use virt_who.Thread.CheckIn.{Batch, accepted, submit_each, batch_report, note_check_in}

module _ (setting : Setting) where
  lookup-submit_each :
      (n : ℕ) (found : Dict Report) (ks : Keys) (d : Dict (ℕ × ℕ)) (j : String) (report : Report)
      → lookup j found ≡ some report
      → lookup j (submit_each setting n found ks d)
        ≡ (if contains ks j then some (n, setting.report_hash report) else lookup j d)
  unfolding submit_each contains
  lookup-submit_each n found [] d j report e = refl
  lookup-submit_each n found (k ∷ ks) d j report e = elim (Bool-cases (k == j)) [
    | inl same ↦
        let eq : k ≡ j = ground (arith, same_text k j) in
        let at_k : lookup k found ≡ some report =
          subst (λ i. lookup i found ≡ some report) (sym eq) e in
        rw (submit_each, at_k)
          (lookup-submit_each n found ks (insert k (n, setting.report_hash report) d) j report e
            ∙ ground (arith, lookup-insert k j (n, setting.report_hash report) d))
    | inr other ↦ elim (Option-cases (lookup k found)) [
      | inl none_there ↦
          rw (submit_each, none_there) (lookup-submit_each n found ks d j report e ∙ rw other refl)
      | inr (report', there) ↦
          rw (submit_each, there)
            (lookup-submit_each n found ks (insert k (n, setting.report_hash report') d) j report e
              ∙ ground (arith, lookup-insert k j (n, setting.report_hash report') d))
    ]
  ]

  -- After a check-in with a result that is true, a source of the batch is noted as submitted, with the
  -- hash of its own report and with the one report that the sources of the batch share, which has the
  -- job and the state of the result. The note of another source that has a report is as before, and
  -- so are the earlier batches.
  pub note_check_in_lem :
      (found : Dict Report) (b : Batch) (job : Option String) (st : ReportState) (t : Thread)
      (k : String) (report : Report)
      → lookup k found ≡ some report
      → let t' = note_check_in setting found b (accepted job st true) t in
        (lookup k t'.submitted_report_and_hash_for_source ≡ (
          if contains b.reports_batched k
          then some (t.next_batch, setting.report_hash report)
          else lookup k t.submitted_report_and_hash_for_source))
        × (t'.batches t.next_batch ≡ batch_report setting b.all_hypervisors job st)
        × ((n : ℕ) → n < t.next_batch → t'.batches n ≡ t.batches n)
  unfolding note_check_in
  note_check_in_lem found b job st t k report e = (
    lookup-submit_each t.next_batch found b.reports_batched t.submitted_report_and_hash_for_source k
        report e,
    rw ((nat_eq_iff t.next_batch t.next_batch).1 refl) refl,
    λ n h. ground arith,
  )
