-- ===== src/Manager/Keeps.antt =====
-- Reasoning about methods: what holds after a block, and blocks that leave the report as it is.
use virt_who.Base.Method.{failure, success, ◌>>=◌, After}
use virt_who.Base.{◌≡◌, refl, Option, none, some, List, ◌∷◌, Result, ok, raised, arith}
use virt_who.Config.Section.{Section}
use virt_who.Manager.{
  handled, escaped, Fault, Failure, Answered, fault, reply, Ending, Call, Rhsm, Session, Action,
  from_result, issue, rescue,
}
use virt_who.Manager.Connect.{or_unregistered, confirm, open_with, connect}
use virt_who.Base.Dict.{Dict}
use virt_who.Config.Value.{Value}

abbrev pub Keeps : {T : Type 0} → Action T → Type 0
Keeps m = (s : Session) → (m s).1.report ≡ s.report

bind_end :
    {T U : Type 0} (Post : Ending U → Session → Type 0) (next : T → Action U) (before : Session)
    (o : Ending T) (s' : Session)
    → s'.report ≡ before.report
    → ((e : Failure) (x : Session) → x.report ≡ before.report → Post (failure e) x)
    → ((t : T) (x : Session) → x.report ≡ before.report → After Post (next t) x)
    → After Post (λ x. elim o [ failure e ↦ (failure e, x) | success t ↦ next t x ]) s'
bind_end Post next before (failure e) s' kept on_failure on_success = on_failure e s' kept
bind_end Post next before (success t) s' kept on_failure on_success = on_success t s' kept

-- A block that keeps the report, and what follows it.
pub then-Keeps :
    {T U : Type 0} (Post : Ending U → Session → Type 0) (m : Action T) (next : T → Action U)
    (s : Session)
    → Keeps m
    → ((e : Failure) (x : Session) → x.report ≡ s.report → Post (failure e) x)
    → ((t : T) (x : Session) → x.report ≡ s.report → After Post (next t) x)
    → After Post (m >>= next) s
then-Keeps Post m next s keeps on_failure on_success =
    bind_end Post next s (m s).0 (m s).1 (keeps s) on_failure on_success

issue_end :
    {T : Type 0} (Post : Ending T → Session → Type 0) (x : Session) (answered a : Answered T)
    → answered ≡ a
    → ((f : Fault) → answered ≡ fault f → Post (failure (escaped f)) x)
    → ((t : T) → answered ≡ reply t → Post (success t) x)
    → After Post (λ y. elim a [ fault f ↦ (failure (escaped f), y) | reply t ↦ (success t, y) ]) x
issue_end Post x answered (fault f) e on_fault on_reply = on_fault f e
issue_end Post x answered (reply t) e on_fault on_reply = on_reply t e

-- A call, by what is answered to it.
pub issue-After :
    {T : Type 0} (Post : Ending T → Session → Type 0) (c : Call) (answer : List Call → Answered T)
    (s : Session)
    → ((f : Fault)
        → answer (c ∷ s.calls) ≡ fault f
        → Post (failure (escaped f)) (record s { calls = c ∷ s.calls }))
    → ((t : T)
        → answer (c ∷ s.calls) ≡ reply t
        → Post (success t) (record s { calls = c ∷ s.calls }))
    → After Post (issue c answer) s
issue-After Post c answer s on_fault on_reply =
    issue_end Post (record s { calls = c ∷ s.calls }) (answer (c ∷ s.calls)) (answer (c ∷ s.calls))
      refl on_fault on_reply

abbrev pub Handled :
    {T : Type 0} → (Fault → Failure) → (Ending T → Session → Type 0) → Ending T → Session → Type 0
Handled handler Post (failure e) x = Post (failure (handled handler e)) x
Handled handler Post (success t) x = Post (success t) x

rescue_end :
    {T : Type 0} (handler : Fault → Failure) (Post : Ending T → Session → Type 0) (o : Ending T)
    (x : Session)
    → Handled handler Post o x
    → After Post
        (λ y. elim o [ failure e ↦ (failure (handled handler e), y) | success t ↦ (success t, y) ])
        x
rescue_end handler Post (failure e) x h = h
rescue_end handler Post (success t) x h = h

-- A block with handlers around it.
pub rescue-After :
    {T : Type 0} (handler : Fault → Failure) (Post : Ending T → Session → Type 0) (m : Action T)
    (s : Session)
    → After (Handled handler Post) m s
    → After Post (rescue handler m) s
rescue-After handler Post m s h = rescue_end handler Post (m s).0 (m s).1 h

pub issue-Keeps : {T : Type 0} (c : Call) (answer : List Call → Answered T) → Keeps (issue c answer)
issue-Keeps c answer s = ground arith

pub from_result-Keeps : {T : Type 0} (r : Result T) → Keeps (from_result r)
from_result-Keeps (ok t) s = refl
from_result-Keeps (raised e) s = refl

pub rescue-Keeps :
    {T : Type 0} (handler : Fault → Failure) (m : Action T) → Keeps m → Keeps (rescue handler m)
rescue-Keeps handler m keeps s = ground (arith, keeps s)

pub connect-Keeps : {M : Type 0} (rhsm : Rhsm) (config : Section M) → Keeps (connect rhsm config)
unfolding connect open_with confirm
connect-Keeps rhsm config s = ground arith

-- What an outcome says of the block before it.
pub from_result-success :
    {T U : Type 0} (r : Result T) (next : T → Action U) (u : U) (s s' : Session)
    → (from_result r >>= next) s ≡ (success u, s')
    → (t : T) × (r ≡ ok t) × (next t s ≡ (success u, s'))
from_result-success (ok t) next u s s' e = (t, refl, e)
from_result-success (raised x) next u s s' e = cc

pub or_unregistered-success :
    {U : Type 0} (r : Option (Dict Value)) (next : Dict Value → Action U) (u : U) (s s' : Session)
    → (or_unregistered r >>= next) s ≡ (success u, s')
    → (t : Dict Value) × (r ≡ some t) × (next t s ≡ (success u, s'))
or_unregistered-success (some t) next u s s' e = (t, refl, e)
or_unregistered-success none next u s s' e = cc
