-- ===== src/Tests.antt =====
-- The theorems on the reports and threads of virtwho/virt/virt.py at concrete inputs.
use virt_who.Base.{
  ℕ, ◌+◌, ◌<◌, String, ◌≡◌, refl, true, false, not, ◌&&◌, none, some, [], ◌∷◌, select, arith,
  nat_eq, if◌then◌else◌, ok, ◌==◌, string_eq,
}
use virt_who.Config.Value.{pos}
use mathlib.Core.Option
use virt_who.Base.Keys.{contains}
use virt_who.Base.Dict.{Dict, lookup, insert, has}
use virt_who.Report.{
  Hypervisor, Association, Report, created, finished, wildcards, error_report, host_guest,
  domain_list,
}
use virt_who.Report.Filter.{
  Matching, matches, filter_match, association, listed, association-select,
}
use virt_who.Thread.{
  checked_in, check_in, is_terminated, Setting, Thread, Request, Answer, job_state, throttled,
  missing, call_count, check_job,
}
use virt_who.Thread.Jobs.{check_report_status}
use virt_who.Thread.Jobs.Polling.{IsThrottled, check_report_status-throttled}
use virt_who.Thread.Gather.{get_data_common}
use virt_who.Thread.Gather.Settled.{get_data_common-settled}
use virt_who.Thread.Gather.Fresh.{fresh, get_data_common-free}
use virt_who.Thread.CheckIn.{Batch, no_batch, classify, accepted, note_check_in, batch_report}
use virt_who.Thread.Send.Oneshot.{Sent, calls, send_reports-oneshot}
use virt_who.Thread.CheckIn.Noted.{note_check_in_lem}
use virt_who.Thread.Satellite.{check_in_report}
use virt_who.Thread.Satellite.Busy.{result, check_in_report_lem}

-- Patterns that match themselves only.
abbrev matching : Matching
matching = record { fnmatch = λ host pattern. host == pattern; re_match = λ host pattern. none }

abbrev hypervisor : String → Hypervisor
hypervisor id = record { hypervisor_id = id; guest_ids = []; name = none; facts = none }

abbrev gathered : Association
gathered = record {
  hypervisors = hypervisor "a" ∷ hypervisor "b" ∷ hypervisor "c" ∷ [];
  exclude_hosts = some ("a" ∷ []);
  filter_hosts = some ("a" ∷ "b" ∷ []);
  filter_type = wildcards;
}

association-select_example :
    association matching gathered
    ≡ select
        (λ h.
          not (listed matching wildcards (some ("a" ∷ [])) false h.hypervisor_id)
          && listed matching wildcards (some ("a" ∷ "b" ∷ [])) true h.hypervisor_id)
        gathered.hypervisors
association-select_example = association-select matching gathered

-- A server that throttles the first call, and all calls.
abbrev once : ℕ → Request → Answer
once n r = if nat_eq n 0 then throttled missing else job_state finished

abbrev always : ℕ → Request → Answer
always n r = throttled missing

abbrev setting : (ℕ → Request → Answer) → Setting
setting server = record {
  name = "acme";
  oneshot = false;
  status = false;
  print = false;
  interval = 60;
  server = server;
  terminate_at = some 10;
  source = λ s k. none;
  report_hash = λ r. 0;
  report_owner = λ r. true;
}

abbrev report : Report
report = record { config_name = "acme"; state = created; job_id = some "1"; content = error_report }

abbrev thread : Thread
thread = record {
  time = 8;
  calls = [];
  stopped = false;
  is_initial_run = true;
  interval_modifier = pos 0;
  source_keys = "acme" ∷ [];
  last_report_for_source = [];
  submitted_report_and_hash_for_source = [];
  batches = λ n. report;
  next_batch = 0;
  has_owner = true;
}

once-IsThrottled :
    (n : ℕ)
    → n < 1
    → IsThrottled ((setting once).server (n + call_count thread.calls) (check_job (some "1")))
unfolding call_count
once-IsThrottled n h = record { retry_after = missing; answer = ground arith }

check_report_status-throttled_example :
    check_report_status (setting always) 100 false report thread ≡ none
check_report_status-throttled_example =
    check_report_status-throttled (setting always) 100 false report thread refl refl
      (λ n. record { retry_after = missing; answer = refl })

-- A thread without a submitted report, whose datastore has one report.
abbrev stocked : Setting
stocked = record (setting once) { source = λ s k. if k == "acme" then some report else none }

get_data_common-free_example :
    (r : Dict Report) × (get_data_common stocked 5 true ("acme" ∷ []) thread ≡ some (r, thread))
    × ((k : String)
        → lookup k r ≡ (if contains ("acme" ∷ []) k then fresh stocked true thread k else none))
unfolding lookup
get_data_common-free_example = get_data_common-free stocked 5 true ("acme" ∷ []) thread (λ k. refl)

stocked-gathered :
    get_data_common stocked 5 true ("acme" ∷ []) thread ≡ some (("acme", report) ∷ [], thread)
unfolding get_data_common lookup insert
stocked-gathered = refl

get_data_common-settled_example : has "acme" thread.submitted_report_and_hash_for_source ≡ false
unfolding lookup
get_data_common-settled_example =
    get_data_common-settled stocked 5 true ("acme" ∷ []) (("acme", report) ∷ []) thread thread
      "acme" stocked-gathered refl

-- A report with hypervisors and a list of guests, in oneshot mode.
abbrev hosts : Report
hosts = record report { content = host_guest gathered }

abbrev guests : Report
guests = record report { content = domain_list [] none }

abbrev found : Dict Report
found = ("hosts", hosts) ∷ ("guests", guests) ∷ []

abbrev one_round : Setting
one_round = record (setting once) { oneshot = true }

abbrev batch : Batch
batch = record {
  all_hypervisors = hypervisor "b" ∷ [];
  domain_list_reports = "guests" ∷ [];
  reports_batched = "hosts" ∷ [];
  sources_erred = [];
}

found-classified : classify matching one_round found no_batch thread ≡ ok (batch, thread)
unfolding classify filter_match matches
found-classified = refl

send_reports-oneshot_example :
    Sent one_round matching 1 found thread (calls one_round thread + 1 + 1)
send_reports-oneshot_example =
    send_reports-oneshot one_round matching 0 found thread thread batch refl found-classified

note_check_in_lem_example :
    let t = note_check_in one_round found batch (accepted (some "7") created true) thread in
    (lookup "hosts" t.submitted_report_and_hash_for_source ≡ (
      if contains batch.reports_batched "hosts"
      then some (0, one_round.report_hash hosts)
      else lookup "hosts" thread.submitted_report_and_hash_for_source))
    × (t.batches 0 ≡ batch_report one_round batch.all_hypervisors (some "7") created)
    × ((n : ℕ) → n < 0 → t.batches n ≡ thread.batches n)
unfolding lookup
note_check_in_lem_example =
    note_check_in_lem one_round found batch (some "7") created thread "hosts" hosts refl

-- A Satellite 5 that throttles the first call.
abbrev satellite : ℕ → Request → Answer
satellite n r = if nat_eq n 0 then throttled missing else checked_in none created true

satellite-IsThrottled :
    (n : ℕ)
    → n < 1
    → IsThrottled ((setting satellite).server (n + call_count thread.calls) (check_in []))
unfolding call_count
satellite-IsThrottled n h = record { retry_after = missing; answer = ground arith }

check_in_report_lem_example :
    Option.map result (check_in_report (setting satellite) 2 "hosts" hosts [] thread)
    ≡ some (true, (2, 8))
unfolding call_count is_terminated
check_in_report_lem_example =
    check_in_report_lem (setting satellite) 1 "hosts" hosts [] thread none created true refl refl
      satellite-IsThrottled refl
