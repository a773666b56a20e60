-- ===== src/Executor/Oneshot/Tests.antt =====
-- The theorem on a run in oneshot mode at a concrete input.
use virt_who.Base.{
  String, ◌≡◌, refl, Bool, true, false, none, some, List, [], ◌∷◌, if◌then◌else◌, All,
}
use virt_who.Base.Keys.{Keys, contains}
use virt_who.Base.Dict.{Dict, lookup}
use virt_who.Base.Method.{failure, success}
use virt_who.Report.{Report, no_type}
use virt_who.Source.{Backend, is_terminated}
use virt_who.Executor.Oneshot.{prints, run_oneshot}
use virt_who.Executor.Oneshot.Printed.{IsReady, report_named, run_oneshot-prints}

-- One source that answers, and one that does not.
abbrev backend : String → Bool → Backend
backend name answers = record {
  name = name;
  oneshot = true;
  status = false;
  interval = 60;
  is_hypervisor = true;
  exclude_hosts = none;
  filter_hosts = none;
  filter_type = no_type;
  prepared = success tt;
  confirm = λ n. success tt;
  mapping = λ n. if answers then success [] else failure "unreachable";
  domains = λ n. success [];
  poll_time = λ n. 3;
  terminate_at = none;
}

abbrev virts : List Backend
virts = backend "acme" true ∷ backend "other" false ∷ []

abbrev sources : Keys
sources = "acme" ∷ "other" ∷ []

abbrev ready : All (IsReady 0) virts
unfolding is_terminated
ready = (
  record { oneshot = refl; prepared = refl; running = refl; to_the_end = refl },
  (record { oneshot = refl; prepared = refl; running = refl; to_the_end = refl }, tt),
)

run_oneshot-prints_example :
    (d : Dict Report) × (run_oneshot 1 0 true sources virts true [] ≡ some (prints d))
    × ((k : String)
        → lookup k d ≡ (if contains sources k then report_named 0 k virts none else none))
run_oneshot-prints_example = run_oneshot-prints 0 0 sources virts ready refl
