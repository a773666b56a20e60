-- ===== src/Manager/Calls/Sent.antt =====
-- What a check-in that returned has sent, and what one that failed has left.
use virt_who.Base.Method.{failure, success, ◌>>=◌, return, After, Bound, >>=-After}
use virt_who.Base.{
  subst, Exception, Result, ok, raised, String, ◌≡◌, refl, ap, sym, ◌∙◌, ◌⊎◌, inl, inr, Bool, true,
  false, Option, none, some, List, ◌∷◌, key_error,
}
use virt_who.Base.Dict.{Dict}
use virt_who.Config.Value.{Value}
use virt_who.Config.Section.{Section, get_item}
use virt_who.Report.{
  Report, created, finished, Content, host_guest, domain_list, error_report, status_report,
  Association,
}
use virt_who.Report.Filter.{Matching, association}
use virt_who.Manager.{
  reply, crash, Failure, escaped, Call, CheckInResult, Rhsm, Session, Ending, Action, from_result,
  has_capability,
}
use virt_who.Manager.Mapping.{hypervisor_mapping}
use virt_who.Manager.Connect.{connect}
use virt_who.Manager.Keeps.{then-Keeps, issue-After, connect-Keeps}
use virt_who.Manager.Calls.{
  is_rhsm_server_async, hypervisors_in, call_check_in, note_job, note_result, check_in_hosts,
  named_options, finish_check_in, send_mapping, send_hypervisors, send_report,
}
use virt_who.Manager.Calls.Taken.{CheckInCalls, Taken, call_check_in-Taken}

-- The report after a check-in: with the job that the server made of it, or finished.
abbrev pub checked_report : Bool → CheckInResult → Report → Report
checked_report true result r = record r { state = created; job_id = result.id }
checked_report false result r = record r { state = finished }

-- The server says whether it has jobs; it then takes a check-in, under the owner of the section, of
-- the hypervisors of the report that pass its filters; and the report is marked by its result.
pub record IsSent {M : Type 0} (rhsm : Rhsm) (matching : Matching) (config : Section M)
    (options : Option (Dict Value)) (before : Report) (result : CheckInResult) (after : Session)
    : Type 0 where
  pub gathered : Association
  pub content : before.content ≡ host_guest gathered
  pub connected : List Call
  pub is_async : Bool
  pub capability : rhsm.answer_capability (has_capability ∷ connected) ≡ reply is_async
  pub owner : Value
  pub of_section : get_item config "owner" ≡ ok owner
  pub calls :
      CheckInCalls rhsm owner
        (hypervisor_mapping is_async (association matching gathered)).0
        (named_options options)
        (has_capability ∷ connected)
        after.calls
  pub answer : rhsm.answer_check_in after.calls ≡ reply result
  pub marked : after.report ≡ checked_report is_async result before

-- Of a check-in that failed: the report is as it was, except that it is `created` if the result has no
-- job, which escapes as a KeyError.
abbrev pub IsLeft : Report → Failure → Session → Type 0
IsLeft before e after =
    (after.report ≡ before)
    ⊎ (e ≡ escaped (crash key_error)) × (after.report ≡ record before { state = created })

abbrev pub Accounted :
    {M : Type 0}
    → Rhsm
    → Matching
    → Section M
    → Option (Dict Value)
    → Report
    → Ending CheckInResult
    → Session
    → Type 0
Accounted rhsm matching config options before (failure e) after = IsLeft before e after
Accounted rhsm matching config options before (success result) after =
    IsSent rhsm matching config options before result after

subst2 :
    {A B : Type 0} (P : A → B → Type 0) {a a' : A} {b b' : B} → a ≡ a' → b ≡ b' → P a b → P a' b'
subst2 P {a} {a'} {b} {b'} e f p = subst (λ x. P x b') e (subst (P a) f p)

-- What holds behind the two steps before a check-in: the server has said whether it has jobs, in the
-- last call, and the section has an owner.
record Ready {M : Type 0} (rhsm : Rhsm) (config : Section M) (is_async : Bool) (owner : Value)
    (x : Session) : Type 0 where
  connected : List Call
  capability : rhsm.answer_capability (has_capability ∷ connected) ≡ reply is_async
  of_section : get_item config "owner" ≡ ok owner
  asked : x.calls ≡ has_capability ∷ connected

from_result-After :
    {T U : Type 0} (Post : Ending U → Session → Type 0) (r : Result T) (next : T → Action U)
    (s : Session)
    → ((e : Exception) → r ≡ raised e → Post (failure (escaped (crash e))) s)
    → ((t : T) → r ≡ ok t → After Post (next t) s)
    → After Post (from_result r >>= next) s
from_result-After Post (raised e) next s on_raise on_value = on_raise e refl
from_result-After Post (ok t) next s on_raise on_value = on_value t refl

module _ (rhsm : Rhsm) (matching : Matching) where
  module _ {M : Type 0} (config : Section M) (options : Option (Dict Value)) where
    -- The end of a check-in, with the report that it began with and what was gathered.
    sent :
        (before : Report) (r : Association) (is_async : Bool) (owner : Value)
        (result : CheckInResult) (s x after : Session)
        → before.content ≡ host_guest r
        → Ready rhsm config is_async owner s
        → Taken rhsm matching owner
            (hypervisor_mapping is_async (association matching r)).0
            (named_options options)
            s
            (success result)
            x
        → after.calls ≡ x.calls
        → after.report ≡ checked_report is_async result before
        → IsSent rhsm matching config options before result after
    sent before r is_async owner result s x after content ready taken same marked = record {
      gathered = r;
      content = content;
      connected = ready.connected;
      is_async = is_async;
      capability = ready.capability;
      owner = owner;
      of_section = ready.of_section;
      calls =
          subst2
            (CheckInCalls rhsm owner (hypervisor_mapping is_async (association matching r)).0
              (named_options options))
            ready.asked (sym same) taken.0;
      answer = ap rhsm.answer_check_in same ∙ taken.1;
      marked = marked;
    }

    note_job-Accounted :
        (before : Report) (r : Association) (owner : Value) (result : CheckInResult)
        (o : Option String) (s x : Session)
        → result.id ≡ o
        → before.content ≡ host_guest r
        → Ready rhsm config true owner s
        → Taken rhsm matching owner
            (hypervisor_mapping true (association matching r)).0
            (named_options options)
            s
            (success result)
            x
        → x.report ≡ before
        → After
            (Accounted rhsm matching config options before)
            (note_job rhsm matching o >>= λ u. return result)
            (record x { report = record x.report { state = created } })
    note_job-Accounted before r owner result none s x e content ready taken kept =
        inr (refl, ap (λ (y : Report). record y { state = created }) kept)
    note_job-Accounted before r owner result (some id) s x e content ready taken kept =
        sent before r true owner result s x _ content ready taken refl (
          ap (λ (y : Report). record y { state = created; job_id = some id }) kept
          ∙ ap (λ job. record before { state = created; job_id = job }) (sym e))

    finish_check_in-Accounted :
        (before : Report) (r : Association) (is_async : Bool) (owner : Value)
        (result : CheckInResult) (s x : Session)
        → before.content ≡ host_guest r
        → Ready rhsm config is_async owner s
        → Taken rhsm matching owner
            (hypervisor_mapping is_async (association matching r)).0
            (named_options options)
            s
            (success result)
            x
        → x.report ≡ before
        → After
            (Accounted rhsm matching config options before)
            (finish_check_in rhsm matching is_async result)
            x
    unfolding note_result
    finish_check_in-Accounted before r true owner result s x content ready taken kept =
        note_job-Accounted before r owner result result.id s x refl content ready taken kept
    finish_check_in-Accounted before r false owner result s x content ready taken kept =
        sent before r false owner result s x _ content ready taken refl
          (ap (λ (y : Report). record y { state = finished }) kept)

    called_end :
        (before : Report) (r : Association) (is_async : Bool) (owner : Value) (s : Session)
        (o : Ending CheckInResult) (x : Session)
        → before.content ≡ host_guest r
        → s.report ≡ before
        → Ready rhsm config is_async owner s
        → Taken rhsm matching owner
            (hypervisor_mapping is_async (association matching r)).0
            (named_options options)
            s
            o
            x
        → Bound
            (Accounted rhsm matching config options before)
            (finish_check_in rhsm matching is_async)
            o
            x
    called_end before r is_async owner s (failure e) x content kept ready taken = inl (taken ∙ kept)
    called_end before r is_async owner s (success result) x content kept ready taken =
        finish_check_in-Accounted before r is_async owner result s x content ready taken
          (taken.2 ∙ kept)

    send_hypervisors-Accounted :
        (before : Report) (r : Association) (is_async : Bool) (connected : List Call) (s : Session)
        → before.content ≡ host_guest r
        → s.report ≡ before
        → rhsm.answer_capability (has_capability ∷ connected) ≡ reply is_async
        → s.calls ≡ has_capability ∷ connected
        → After
            (Accounted rhsm matching config options before)
            (send_hypervisors rhsm matching config options is_async (association matching r))
            s
    send_hypervisors-Accounted before r is_async connected s content kept capability asked =
        from_result-After (Accounted rhsm matching config options before) (get_item config "owner")
          (send_mapping rhsm matching config options is_async (association matching r)) s
          (λ e missing. inl kept)
          (λ owner of_section.
            let mapping = (hypervisor_mapping is_async (association matching r)).0 in
            let call = call_check_in rhsm matching owner mapping (named_options options) in
            >>=-After (Accounted rhsm matching config options before) call
              (finish_check_in rhsm matching is_async) s
              (called_end before r is_async owner s (call s).0 (call s).1 content kept
                (record {
                  connected = connected;
                  capability = capability;
                  of_section = of_section;
                  asked = asked;
                })
                (call_check_in-Taken rhsm matching owner mapping (named_options options) s)))

    -- The content is a list of hypervisors, or the report is not touched.
    send_content-Accounted :
        (before : Report) (c : Content) (is_async : Bool) (connected : List Call) (s : Session)
        → before.content ≡ c
        → s.report ≡ before
        → rhsm.answer_capability (has_capability ∷ connected) ≡ reply is_async
        → s.calls ≡ has_capability ∷ connected
        → After
            (Accounted rhsm matching config options before)
            (hypervisors_in rhsm matching c
              >>= send_hypervisors rhsm matching config options is_async)
            s
    send_content-Accounted before (host_guest r) is_async connected s content kept cap asked =
        send_hypervisors-Accounted before r is_async connected s content kept cap asked
    send_content-Accounted before (domain_list guests id) is_async connected s content kept cap
          asked =
        inl kept
    send_content-Accounted before error_report is_async connected s content kept cap asked =
        inl kept
    send_content-Accounted before status_report is_async connected s content kept cap asked =
        inl kept

    -- A check-in that returns has asked the server whether it has jobs; it has, as its last call, sent
    -- under the owner of the section the hypervisors of the report that pass its filters, in the form
    -- for that answer, with the options or, after a TypeError, without; the server has taken them;
    -- and the report is marked: as created with the job of the result if the server has jobs, else as
    -- finished. One that raises leaves the report as it was, except that a result without a job
    -- leaves it created behind a KeyError.
    pub check_in_hosts-Accounted :
        (s : Session)
        → After
            (Accounted rhsm matching config options s.report)
            (check_in_hosts rhsm matching config options)
            s
    unfolding check_in_hosts
    check_in_hosts-Accounted s =
        let Post = Accounted rhsm matching config options s.report in
        let send = send_report rhsm matching config options s.report in
        then-Keeps Post (connect rhsm config)
          (λ (u : Unit). is_rhsm_server_async rhsm matching >>= send) s (connect-Keeps rhsm config)
          (λ e x same. inl same)
          (λ u x same. >>=-After Post (is_rhsm_server_async rhsm matching) send x (
            issue-After (Bound Post send) has_capability rhsm.answer_capability x
              (λ f answered. inl same)
              (λ is_async answered.
                send_content-Accounted s.report s.report.content is_async x.calls
                  (record x { calls = has_capability ∷ x.calls }) refl same answered refl)))
