-- ===== src/Thread/Gather.antt =====
-- `_get_data_common` and `_get_data_initial` of `DestinationThread`: which reports are to be sent.
pub mod Untouched
pub mod Settled
pub mod Fresh
use virt_who.Base.{
  ℕ, zero, suc, ◌+◌, String, Bool, true, false, not, ◌&&◌, ◌||◌, Option, none, some, List, [], ◌∷◌,
  nat_eq, is_empty, if◌then◌else◌,
}
use virt_who.Base.Keys.{Keys, difference}
use virt_who.Base.Dict.{Dict, lookup, insert, erase, keys, update}
use virt_who.Report.{Report, ReportState, created, processing, finished, failed, canceled}
use virt_who.Thread.{Setting, Thread, is_terminated}
use virt_who.Thread.Jobs.{check_report_status}

-- The chain of steps of which one may not have ended.
infixl 5 ◌>>=◌
abbrev pub ◌>>=◌ : {A B : Type 0} → Option A → (A → Option B) → Option B
none >>= f = none
some a >>= f = f a

abbrev pub set_batch : ℕ → Report → (ℕ → Report) → ℕ → Report
set_batch n r batches m = if nat_eq m n then r else batches m

module _ (setting : Setting) where
  -- `ignore_duplicates and report.hash == ...`, where the hash may be `None`.
  abbrev pub is_duplicate : Bool → Report → Option ℕ → Bool
  is_duplicate ignore_duplicates report none = false
  is_duplicate ignore_duplicates report (some h) =
      ignore_duplicates && nat_eq (setting.report_hash report) h

  -- What follows `check_report_status`, by the state that the submitted report now has: whether the
  -- new report is taken.
  unfoldable pub settle : Bool → String → Report → ℕ × ℕ → ReportState → Thread → Bool × Thread
  settle ignore_duplicates k report (n, h) finished t = (
    not (is_duplicate ignore_duplicates report (some h)),
    record t { last_report_for_source = insert k h t.last_report_for_source },
  )
  settle ignore_duplicates k report (n, h) processing t = (
    false,
    record t {
      submitted_report_and_hash_for_source = insert k (n, h) t.submitted_report_and_hash_for_source;
    },
  )
  settle ignore_duplicates k report (n, h) created t = (true, t)
  settle ignore_duplicates k report (n, h) failed t = (true, t)
  settle ignore_duplicates k report (n, h) canceled t = (true, t)

  -- A source with a submitted report.
  unfoldable pub check_submitted :
      ℕ → Bool → String → Report → ℕ × ℕ → Thread → Option (Bool × Thread)
  unfolding settle
  check_submitted fuel ignore_duplicates k report (n, h) t = do
    (r, t') ← check_report_status setting fuel false (t.batches n) t
    some (
        settle ignore_duplicates k report (n, h) r.state
          (record t' {
            batches = set_batch n r t'.batches;
            submitted_report_and_hash_for_source = erase k t'.submitted_report_and_hash_for_source;
          }))

  -- One round of `_get_data_common`: the report that is taken, if one is.
  unfoldable pub gather_key : ℕ → Bool → String → Thread → Option (Option Report × Thread)
  unfolding check_submitted
  gather_key fuel ignore_duplicates k t = elim (setting.source t.time k) [
    | none ↦ some (none, t)
    | some report ↦ elim (lookup k t.submitted_report_and_hash_for_source) [
      | some submitted ↦ do
        (take, t') ← check_submitted fuel ignore_duplicates k report submitted t
        some (if take then some report else none, t')
      | none ↦
          if is_duplicate ignore_duplicates report (lookup k t.last_report_for_source)
          then some (none, t)
          else some (some report, t)
    ]
  ]

  abbrev pub collect : String → Option Report → Dict Report → Dict Report
  collect k none reports = reports
  collect k (some report) reports = insert k report reports

  -- `_get_data_common(source_keys, ignore_duplicates)`, from the reports gathered so far.
  unfoldable pub gather_keys :
      ℕ → Bool → Keys → Dict Report → Thread → Option (Dict Report × Thread)
  unfolding gather_key
  gather_keys fuel ignore_duplicates [] reports t = some (reports, t)
  gather_keys fuel ignore_duplicates (k ∷ ks) reports t = do
    (taken, t') ← gather_key fuel ignore_duplicates k t
    gather_keys fuel ignore_duplicates ks (collect k taken reports) t'

  unfoldable pub get_data_common : ℕ → Bool → Keys → Thread → Option (Dict Report × Thread)
  unfolding gather_keys
  get_data_common fuel ignore_duplicates source_keys t =
      gather_keys fuel ignore_duplicates source_keys [] t

  -- The inner loop of `_get_data_initial`, by the seconds left of the interval.
  unfoldable pub initial_round : ℕ → ℕ → Keys → Dict Report → Thread → Option (Dict Report × Thread)
  unfolding get_data_common
  initial_round fuel zero remaining reports t = some (reports, t)
  initial_round fuel (suc left) remaining reports t =
      if is_empty remaining || is_terminated setting t then some (reports, t) else do
        (found, t') ← get_data_common fuel false remaining t
        let rest = difference remaining (keys found)
        initial_round fuel left rest (update reports found)
            (if is_empty rest then t' else record t' { time = t'.time + 1 })

  -- The outer loop, on fuel of its own.
  unfoldable pub initial_loop : ℕ → ℕ → Dict Report → Thread → Option (Dict Report × Thread)
  unfolding initial_round
  initial_loop fuel zero reports t = none
  initial_loop fuel (suc rounds) reports t =
      if not (is_empty reports) || is_terminated setting t
      then some (reports, record t { is_initial_run = false })
      else do
        (found, t') ← initial_round fuel setting.interval t.source_keys reports t
        initial_loop fuel rounds found t'

  -- `_get_data()`
  unfoldable pub get_data : ℕ → ℕ → Thread → Option (Dict Report × Thread)
  unfolding get_data_common initial_loop
  get_data fuel rounds t =
      if t.is_initial_run
      then initial_loop fuel rounds [] t
      else get_data_common fuel true t.source_keys t
