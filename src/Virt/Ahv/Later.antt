-- ===== src/Virt/Ahv/Later.antt =====
-- What the thread of an AHV source does after its first report.
use virt_who.Base.{
  ℕ, zero, suc, ◌+◌, String, ◌≡◌, refl, subst, ◌∙◌, ◌⊎◌, inl, inr, Bool, true, false, Option, none,
  some, if◌then◌else◌, arith, same_text_self,
}
use virt_who.Base.Dict.{lookup, lookup-insert}
use virt_who.Base.Method.{Finish, failure, success}
use virt_who.Report.{status_report}
use virt_who.Datastore.{put}
use virt_who.Source.{Backend, Source, is_terminated, report_with, send_data}
use virt_who.Virt.Ahv.{start_round, end_round, ahv_loop}

module _ (backend : Backend) where
  -- The backend was not asked, and the source's report is the one that was there or a StatusReport.
  pub record IsSilent (s s' : Source) : Type 0 where
    pub asked : s'.polls ≡ s.polls
    pub report :
        (lookup backend.name s'.store ≡ lookup backend.name s.store)
        ⊎ (lookup backend.name s'.store ≡ some (report_with backend status_report))

  IsSilent-trans : (s x y : Source) → IsSilent s x → IsSilent x y → IsSilent s y
  IsSilent-trans s x y first second = record {
    asked = second.asked ∙ first.asked;
    report = elim second.report [
      | inl same ↦ elim first.report [
        | inl before ↦ inl (same ∙ before)
        | inr status ↦ inr (same ∙ status)
      ]
      | inr status ↦ inr status
    ];
  }

  send_data-IsSilent :
      (s : Source) → IsSilent s (send_data backend (report_with backend status_report) s).1
  unfolding send_data put
  send_data-IsSilent s = record {
    asked = ground arith;
    report = ground (
      arith,
      lookup-insert backend.name backend.name (report_with backend status_report) s.store,
      same_text_self backend.name,
    );
  }

  end_round-IsSilent : (next : ℕ) (s : Source) → IsSilent s (end_round backend next s).1
  unfolding end_round
  end_round-IsSilent next s =
      let later = record s { time = s.time + 1 } in
      let status = send_data-IsSilent later in
      record { asked = ground (arith, status.asked); report = ground (arith, status.report) }

  -- Of rounds that have ended in a state.
  abbrev Silent : Source → Option (Finish String Unit × Source) → Type 0
  Silent s none = Unit
  Silent s (some (o, x)) = IsSilent s x

  IsSilent-refl : (s : Source) → IsSilent s s
  IsSilent-refl s = record { asked = refl; report = inl refl }

  Silent-trans :
      (s x : Source) (r : Option (Finish String Unit × Source))
      → IsSilent s x
      → Silent x r
      → Silent s r
  Silent-trans s x none first second = tt
  Silent-trans s x (some (o, y)) first second = IsSilent-trans s x y first second

  go_on-Silent :
      (fuel : ℕ) (ended : Finish String ℕ) (y : Source)
      → ((next : ℕ) (x : Source) → Silent x (ahv_loop backend fuel false next x))
      → Silent y (elim ended as (λ r. Option (Finish String Unit × Source)) [
        | failure e ↦ some (failure e, y)
        | success later ↦ ahv_loop backend fuel false later y
      ])
  go_on-Silent fuel (failure e) y rest = IsSilent-refl y
  go_on-Silent fuel (success later) y rest = rest later y

  ended-Silent :
      (b : Bool) (s : Source) (r : Option (Finish String Unit × Source))
      → Silent s r
      → Silent s (if b then some (success tt, s) else r)
  ended-Silent true s r h = IsSilent-refl s
  ended-Silent false s r h = h

  stopped-Silent :
      (b : Bool) (s : Source) (r : Option (Finish String Unit × Source))
      → Silent s r
      → Silent s (elim b as (λ x. Option (Finish String Unit × Source)) [
        | true ↦ some (success tt, s)
        | false ↦ r
      ])
  stopped-Silent true s r h = IsSilent-refl s
  stopped-Silent false s r h = h

  ahv_loop-Silent :
      (fuel next_update : ℕ) (s : Source) → Silent s (ahv_loop backend fuel false next_update s)
  unfolding ahv_loop start_round
  ahv_loop-Silent zero next_update s = tt
  ahv_loop-Silent (suc fuel) next_update s =
      let (ended, y) = end_round backend next_update s in
      stopped-Silent (is_terminated backend s) s _ (
        ended-Silent backend.oneshot s _ (
          Silent-trans s y _ (end_round-IsSilent next_update s)
            (go_on-Silent fuel ended y (ahv_loop-Silent fuel))))

  -- After the first report the loop, however long it goes on and whatever the backend would answer,
  -- does not ask the backend again, and the report of the source in the datastore is the one that was
  -- there or a StatusReport, also when the program was not asked for its status.
  pub ahv_loop-IsSilent :
      (fuel next_update : ℕ) (s s' : Source) (o : Finish String Unit)
      → ahv_loop backend fuel false next_update s ≡ some (o, s')
      → IsSilent s s'
  ahv_loop-IsSilent fuel next_update s s' o e =
      subst (Silent s) e (ahv_loop-Silent fuel next_update s)
