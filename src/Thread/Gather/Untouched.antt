-- ===== src/Thread/Gather/Untouched.antt =====
-- What `check_report_status` leaves alone.
use virt_who.Base.{
  ℕ, zero, suc, ◌≡◌, refl, ap, sym, subst, ◌∙◌, Bool, true, false, ◌⊎◌, inl, inr, Option, none,
  some, arith, Bool-cases, string_eq,
}
use virt_who.Config.Value.{pos}
use virt_who.Base.Dict.{Dict}
use virt_who.Report.{Report}
use virt_who.Thread.{
  Setting, Thread, Answer, job_state, checked_in, done, throttled, manager_error, fatal_error,
  seconds_of, wait, ask,
}
use virt_who.Thread.Wait.{wait_lem}
use virt_who.Thread.Jobs.{
  continues, Round, leave, again, poll_wait, handle_answer, check_round, check_loop,
  check_report_status,
}

Round-cases :
    (x : Round)
    → ((p : Report × Thread) × (x ≡ leave p.0 p.1)) ⊎ ((p : Report × Thread) × (x ≡ again p.0 p.1))
Round-cases (leave r t) = inl ((r, t), refl)
Round-cases (again r t) = inr ((r, t), refl)

abbrev thread_of : Round → Thread
thread_of (leave r t) = t
thread_of (again r t) = t

-- The submitted reports of a thread.
abbrev pub Submitted : Thread → Dict (ℕ × ℕ)
Submitted t = t.submitted_report_and_hash_for_source

module _ (setting : Setting) where
  submitted-wait : (n : ℕ) (t : Thread) → Submitted (wait setting n t) ≡ Submitted t
  submitted-wait n t = ap (λ (x : Thread). Submitted x) (wait_lem setting n t)

  submitted-poll_wait :
      (first status_call : Bool) (t : Thread)
      → Submitted (poll_wait setting first status_call t) ≡ Submitted t
  unfolding poll_wait
  submitted-poll_wait first status_call t = ground (
    arith,
    submitted-wait (seconds_of t.interval_modifier) (record t { interval_modifier = pos 0 }),
    submitted-wait 15 t,
    submitted-wait 30 t,
  )

  submitted-handle_answer :
      (a : Answer) (r : Report) (t : Thread)
      → Submitted (thread_of (handle_answer setting a r t)) ≡ Submitted t
  unfolding handle_answer
  submitted-handle_answer (job_state st) r t = refl
  submitted-handle_answer (checked_in job st b) r t = refl
  submitted-handle_answer done r t = refl
  submitted-handle_answer (throttled retry_after) r t = elim (Bool-cases setting.oneshot) [
    | inl one ↦ rw one refl
    | inr more ↦ rw more refl
  ]
  submitted-handle_answer manager_error r t = refl
  submitted-handle_answer fatal_error r t = refl

  submitted-check_round :
      (first status_call : Bool) (r : Report) (t : Thread)
      → Submitted (thread_of (check_round setting first status_call r t)) ≡ Submitted t
  unfolding check_round ask
  submitted-check_round first status_call r t =
      submitted-handle_answer _ r _ ∙ submitted-poll_wait first status_call t

  -- A check of a job leaves the submitted reports of the sources alone.
  abbrev Keeps : Dict (ℕ × ℕ) → Option (Report × Thread) → Type 0
  Keeps d none = Unit
  Keeps d (some (r, t)) = Submitted t ≡ d

  check_loop-Keeps :
      (fuel : ℕ) (first status_call : Bool) (r : Report) (t : Thread)
      → Keeps (Submitted t) (check_loop setting fuel first status_call r t)
  unfolding check_loop
  check_loop-Keeps zero first status_call r t = tt
  check_loop-Keeps (suc fuel) first status_call r t = elim (Bool-cases (continues first r.state)) [
    | inr over ↦ rw (check_loop, over) refl
    | inl more ↦ elim (Round-cases (check_round setting first status_call r t)) [
      | inl (p, e) ↦
          rw (check_loop, more, e)
            (ap (λ x. Submitted (thread_of x)) (sym e)
              ∙ submitted-check_round first status_call r t)
      | inr (p, e) ↦
          rw (check_loop, more, e)
            (subst (λ d. Keeps d (check_loop setting fuel false status_call p.0 p.1))
              (ap (λ x. Submitted (thread_of x)) (sym e)
                ∙ submitted-check_round first status_call r t)
              (check_loop-Keeps fuel false status_call p.0 p.1))
    ]
  ]

  pub submitted-check_report_status :
      (fuel : ℕ) (status_call : Bool) (r r' : Report) (t t' : Thread)
      → check_report_status setting fuel status_call r t ≡ some (r', t')
      → Submitted t' ≡ Submitted t
  unfolding check_report_status
  submitted-check_report_status fuel status_call r r' t t' h =
      subst (Keeps (Submitted t)) h (check_loop-Keeps fuel true status_call r t)
