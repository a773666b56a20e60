-- ===== src/Thread/Send/Oneshot.antt =====
-- How many calls `_send_data` makes in oneshot mode.
use virt_who.Base.{
  ℕ, suc, ◌+◌, ◌≤◌, String, ◌≡◌, refl, subst, Bool, true, false, inl, inr, Option, none, some, List,
  [], ◌∷◌, ◌++◌, length, is_empty, if◌then◌else◌, ok, arith, Bool-cases, Option-cases, string_eq,
}
use virt_who.Base.Keys.{Keys}
use virt_who.Base.Dict.{Dict, lookup}
use virt_who.Report.{Report, Hypervisor}
use virt_who.Report.Filter.{Matching}
use virt_who.Thread.{Setting, Thread, is_terminated, call_count, ask}
use virt_who.Thread.CheckIn.{
  Batch, no_batch, classify, CheckIn, no_result, accepted, check_in_loop, note_check_in, send_batch,
}
use virt_who.Thread.Send.{send_guests_loop, send_lists, conclude, send_reports}

module _ (setting : Setting) where
  abbrev pub calls : Thread → ℕ
  calls t = call_count t.calls

  -- Steps that have ended, after so many calls at most.
  abbrev Within : {A : Type 0} → (A → Thread) → ℕ → Thread → Option A → Type 0
  Within thread_of n t none = ⊥
  Within thread_of n t (some a) = calls (thread_of a) ≤ calls t + n

  check_in_loop-Within :
      (fuel : ℕ) (hypervisors : List Hypervisor) (batched : Keys) (t : Thread)
      → setting.oneshot ≡ true
      → Within
          (λ (a : CheckIn × Keys × Thread). a.2)
          1
          t
          (check_in_loop setting (suc fuel) hypervisors batched t)
  unfolding check_in_loop ask call_count
  check_in_loop-Within fuel hypervisors batched t one = ground arith

  calls-note_check_in :
      (found : Dict Report) (b : Batch) (c : CheckIn) (t : Thread)
      → calls (note_check_in setting found b c t) ≡ calls t
  unfolding note_check_in
  calls-note_check_in found b no_result t = refl
  calls-note_check_in found b (accepted job st false) t = refl
  calls-note_check_in found b (accepted job st true) t = refl

  send_batch-Within :
      (fuel : ℕ) (found : Dict Report) (b : Batch) (t : Thread)
      → setting.oneshot ≡ true
      → Within (λ (a : Keys × Thread). a.1) 1 t (send_batch setting (suc fuel) found b t)
  unfolding send_batch
  send_batch-Within fuel found b t one = elim (Bool-cases (is_empty b.all_hypervisors)) [
    | inl nothing ↦ rw (send_batch, nothing) (omega arith)
    | inr some_hosts ↦
        elim (Option-cases
          (check_in_loop setting (suc fuel) b.all_hypervisors b.reports_batched t)) [
            | inl e ↦ absurd (
                subst (Within (λ (a : CheckIn × Keys × Thread). a.2) 1 t) e
                  (check_in_loop-Within fuel b.all_hypervisors b.reports_batched t one))
            | inr (a, e) ↦
                let bound : calls a.2 ≤ calls t + 1 =
                  subst (Within (λ (x : CheckIn × Keys × Thread). x.2) 1 t) e
                    (check_in_loop-Within fuel b.all_hypervisors b.reports_batched t one) in
                rw (send_batch, some_hosts, e, calls-note_check_in found b a.0 a.2) bound
          ]
  ]

  send_guests_loop-Within :
      (fuel : ℕ) (k : String) (report : Report) (t : Thread)
      → setting.oneshot ≡ true
      → Within
          (λ (a : Bool × Bool × Thread). a.2)
          1
          t
          (send_guests_loop setting (suc fuel) k report t)
  unfolding send_guests_loop ask call_count
  send_guests_loop-Within fuel k report t one = ground arith

  weaken :
      {A : Type 0} (thread_of : A → Thread) (m n l : ℕ) (t u : Thread) (o : Option A)
      → calls u ≤ calls t + m
      → m + n ≤ l
      → Within thread_of n u o
      → Within thread_of l t o
  weaken thread_of m n l t u none h e w = w
  weaken thread_of m n l t u (some a) h e w = omega arith

  send_lists-Within :
      (fuel : ℕ) (found : Dict Report) (ks sent erred : Keys) (t : Thread)
      → setting.oneshot ≡ true
      → Within
          (λ (a : Keys × Keys × Thread). a.2)
          (length ks)
          t
          (send_lists setting (suc fuel) found ks sent erred t)
  unfolding send_lists is_terminated
  send_lists-Within fuel found [] sent erred t one = omega arith
  send_lists-Within fuel found (k ∷ ks) sent erred t one =
      let skip =
        weaken (λ (a : Keys × Keys × Thread). a.2) 0 (length ks) (length (k ∷ ks)) t t
          (send_lists setting (suc fuel) found ks sent erred t) (omega arith) (omega arith)
          (send_lists-Within fuel found ks sent erred t one) in
      elim (Option-cases (lookup k found)) [
        | inl e ↦ rw (send_lists, e) skip
        | inr (report, e) ↦ elim (Bool-cases setting.print) [
          | inl printed ↦ rw (send_lists, e, printed) skip
          | inr live ↦ elim (Option-cases (send_guests_loop setting (suc fuel) k report t)) [
            | inl spins ↦ absurd (
                subst (Within (λ (a : Bool × Bool × Thread). a.2) 1 t) spins
                  (send_guests_loop-Within fuel k report t one))
            | inr (a, done_with) ↦
                let bound : calls a.2 ≤ calls t + 1 =
                  subst (Within (λ (x : Bool × Bool × Thread). x.2) 1 t) done_with
                    (send_guests_loop-Within fuel k report t one) in
                let sent' = if a.0 then sent ++ (k ∷ []) else sent in
                let erred' = if a.1 then erred ++ (k ∷ []) else erred in
                rw (send_lists, e, live, done_with)
                  (weaken (λ (x : Keys × Keys × Thread). x.2) 1 (length ks) (length (k ∷ ks)) t a.2
                    (send_lists setting (suc fuel) found ks sent' erred' a.2) bound (omega arith)
                    (send_lists-Within fuel found ks sent' erred' a.2 one))
          ]
        ]
      ]

  calls-conclude :
      (sent erred : Keys) (t : Thread) → calls (conclude setting sent erred t) ≡ calls t
  unfolding conclude
  calls-conclude sent erred t = ground arith

  -- The run of the parts of `send_reports` that follow the loop over the reports.
  pub record Sent (matching : Matching) (fuel : ℕ) (found : Dict Report) (t : Thread) (n : ℕ)
      : Type 0 where
    pub thread : Thread
    pub returned : send_reports matching setting fuel found t ≡ some (ok thread)
    pub bound : calls thread ≤ n

  -- In oneshot mode, if the loop over the reports raises nothing, sending them ends, whatever the
  -- server answers: after one call for the hypervisors of all reports at most, and one for each report
  -- that is a list of guests.
  pub send_reports-oneshot :
      (matching : Matching) (fuel : ℕ) (found : Dict Report) (t t' : Thread) (b : Batch)
      → setting.oneshot ≡ true
      → classify matching setting found no_batch t ≡ ok (b, t')
      → Sent matching (suc fuel) found t (calls t' + 1 + length b.domain_list_reports)
  unfolding send_reports
  send_reports-oneshot matching fuel found t t' b one classified =
      elim (Option-cases (send_batch setting (suc fuel) found b t')) [
        | inl e ↦ absurd (
            subst (Within (λ (a : Keys × Thread). a.1) 1 t') e
              (send_batch-Within fuel found b t' one))
        | inr (a, e) ↦
            let bound : calls a.1 ≤ calls t' + 1 =
              subst (Within (λ (a : Keys × Thread). a.1) 1 t') e
                (send_batch-Within fuel found b t' one) in
            let lists =
              send_lists-Within fuel found b.domain_list_reports [] (b.sources_erred ++ a.0) a.1
                one in
            elim (Option-cases (
              send_lists setting (suc fuel) found b.domain_list_reports [] (b.sources_erred ++ a.0)
                a.1)) [
                  | inl f ↦ absurd (
                      subst
                        (Within (λ (x : Keys × Keys × Thread). x.2) (length b.domain_list_reports)
                          a.1)
                        f lists)
                  | inr (c, f) ↦
                      let more : calls c.2 ≤ calls a.1 + length b.domain_list_reports =
                        subst
                          (Within (λ (x : Keys × Keys × Thread). x.2) (length b.domain_list_reports)
                            a.1)
                          f lists in
                      record {
                        thread = conclude setting c.0 c.1 c.2;
                        returned = rw (send_reports, classified, e, f) refl;
                        bound = rw (calls-conclude c.0 c.1 c.2) (omega (arith, bound, more));
                      }
                ]
      ]
