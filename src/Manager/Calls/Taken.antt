-- ===== src/Manager/Calls/Taken.antt =====
-- The calls of one check-in, the second of which is made after a TypeError of the first.
use virt_who.Base.Method.{failure, success, After}
use virt_who.Base.{
  type_error, value_error, index_error, attribute_error, io_error, ◌≡◌, refl, ap, ◌∙◌, ◌⊎◌, inl,
  inr, Bool, true, false, Option, none, some, List, ◌∷◌, if◌then◌else◌, key_error,
}
use virt_who.Base.Dict.{Dict}
use virt_who.Config.Value.{Value}
use virt_who.Report.Filter.{Matching}
use virt_who.Manager.{
  fault, Fault, bad_status_line, rate_limit_exceeded, gone, connection_exception, reply, crash,
  Failure, escaped, Call, hypervisor_check_in, CheckInResult, Rhsm, Session, Ending, Action, issue,
}
use virt_who.Manager.Mapping.{HostMapping}
use virt_who.Manager.Keeps.{Handled, issue-After, rescue-After}
use virt_who.Manager.Calls.{call_check_in, check_in_failure, or_on_type_error, is_type_error}

-- The calls of a check-in that the server has taken, the last one first: it has been asked before
-- whether it has jobs, and a check-in with options may have failed as a TypeError in between.
abbrev pub CheckInCalls :
    Rhsm → Value → HostMapping → Option (Dict Value) → List Call → List Call → Type 0
CheckInCalls rhsm owner mapping options asked calls =
    (calls ≡ hypervisor_check_in owner mapping (some options) ∷ asked)
    ⊎ (calls
        ≡ hypervisor_check_in owner mapping none
          ∷ hypervisor_check_in owner mapping (some options)
          ∷ asked)
      × (rhsm.answer_check_in (hypervisor_check_in owner mapping (some options) ∷ asked)
          ≡ fault (crash type_error))

type_error_fault : (f : Fault) → is_type_error (escaped f) ≡ true → f ≡ crash type_error
type_error_fault (crash type_error) e = refl
type_error_fault (crash key_error) e = cc
type_error_fault (crash value_error) e = cc
type_error_fault (crash index_error) e = cc
type_error_fault (crash attribute_error) e = cc
type_error_fault (crash io_error) e = cc
type_error_fault bad_status_line e = cc
type_error_fault (rate_limit_exceeded r) e = cc
type_error_fault (gone c t) e = cc
type_error_fault (connection_exception c t) e = cc

module _ (rhsm : Rhsm) (matching : Matching) where
  -- What a call of a check-in comes to: the report is kept, and if the call returned, the server has
  -- taken it.
  abbrev pub Taken :
      Value → HostMapping → Option (Dict Value) → Session → Ending CheckInResult → Session → Type 0
  Taken owner mapping options before (failure e) after = after.report ≡ before.report
  Taken owner mapping options before (success result) after =
      CheckInCalls rhsm owner mapping options before.calls after.calls
      × (rhsm.answer_check_in after.calls ≡ reply result)
      × (after.report ≡ before.report)

  retry_end :
      (Post : Ending CheckInResult → Session → Type 0) (again : Action CheckInResult) (b : Bool)
      (e : Failure) (x : Session)
      → (b ≡ true → After Post again x)
      → Post (failure e) x
      → After Post (λ y. if b then again y else (failure e, y)) x
  retry_end Post again true e x h k = h refl
  retry_end Post again false e x h k = k

  abbrev Retried :
      (Ending CheckInResult → Session → Type 0)
      → Action CheckInResult
      → Ending CheckInResult
      → Session
      → Type 0
  Retried Post again (failure e) x =
      (is_type_error e ≡ true → After Post again x) × Post (failure e) x
  Retried Post again (success t) x = Post (success t) x

  or_on_type_error_end :
      (Post : Ending CheckInResult → Session → Type 0) (again : Action CheckInResult)
      (o : Ending CheckInResult) (x : Session)
      → Retried Post again o x
      → After Post
          (λ y. elim o [
            | success t ↦ (success t, y)
            | failure e ↦ if is_type_error e then again y else (failure e, y)
          ])
          x
  or_on_type_error_end Post again (failure e) x h =
      retry_end Post again (is_type_error e) e x h.0 h.1
  or_on_type_error_end Post again (success t) x h = h

  pub call_check_in-Taken :
      (owner : Value) (mapping : HostMapping) (options : Option (Dict Value)) (s : Session)
      → After (Taken owner mapping options s) (call_check_in rhsm matching owner mapping options) s
  unfolding call_check_in
  call_check_in-Taken owner mapping options s =
      let with_options : Action CheckInResult =
        issue (hypervisor_check_in owner mapping (some options)) rhsm.answer_check_in in
      let without : Action CheckInResult =
        issue (hypervisor_check_in owner mapping none) rhsm.answer_check_in in
      let Post = Handled check_in_failure (Taken owner mapping options s) in
      rescue-After check_in_failure (Taken owner mapping options s)
        (or_on_type_error with_options without) s
        (or_on_type_error_end Post without (with_options s).0 (with_options s).1 (
          issue-After (Retried Post without) (hypervisor_check_in owner mapping (some options))
            rhsm.answer_check_in s
            (λ f answered. (
              λ of_type.
                  issue-After Post (hypervisor_check_in owner mapping none) rhsm.answer_check_in
                    (record s {
                      calls = hypervisor_check_in owner mapping (some options) ∷ s.calls;
                    })
                    (λ g again. refl)
                    (λ t again.
                      (inr (refl, answered ∙ ap fault (type_error_fault f of_type)), again, refl)),
              refl,
            ))
            (λ t answered. (inl refl, answered, refl))))
