-- ===== src/Pipeline/Ledger/Verdict.antt =====
-- The verdict of the ledger, what the readback does to it, and the exit code: `verdict` and the
-- end of `execute` of testinghq/pipeline/ledger.py, `readback_verdict` and `readback_failed` of
-- testinghq/pipeline/common.py, `readback_unsettled` of testinghq/pipeline/verify.py.
use testing_hq.Prelude.{
  ℕ, Bool, false, not, ◌&&◌, ◌||◌, Option, none, some, List, is_empty, if◌then◌else◌,
}
use testing_hq.Prelude.Text.{Text}
use testing_hq.Core.ExitCodes.{exit_ok, exit_refused, exit_mismatch}
use testing_hq.Pipeline.Strings.{Strings}
use testing_hq.Pipeline.Readback.{Probe, Readback}
use testing_hq.Pipeline.Settle.{
  Environment, Settings, read_back_all, ReadbackOutcome, Returned, returned, bad_poll_interval,
  adapter_error, fuel_exhausted,
}
use testing_hq.Pipeline.Ledger.Tags.{Family}
use testing_hq.Pipeline.Ledger.Account.{SentMessage, Grader, Accounting, account, has_some}
use testing_hq.Pipeline.Ledger.Enumerate.{Lister, Reason, enumerate_store}

pub data LedgerVerdict : Type 0 where
  readback_failed_verdict unaccounted unsettled misparsed unverified_strays balanced : LedgerVerdict

unfoldable pub verdict : Accounting → LedgerVerdict
verdict a =
    if a.readback_failed
    then readback_failed_verdict
    else if not (is_empty a.duplicated) || has_some a.extra
    then unaccounted
    else if a.unsettled && not (is_empty a.missing)
    then unsettled
    else if not (is_empty a.missing)
    then unaccounted
    else if not (is_empty a.wrong)
    then misparsed
    else if a.unsettled
    then unsettled
    else if not a.strays_searched
    then unverified_strays
    else balanced

-- `readback_verdict`: the readback's word, or the tool's own.
pub data Sourced (V : Type 0) : Type 0 where
  readback_failed readback_unsettled : Sourced V
  by_tool : V → Sourced V

-- `outcome.unsettled`
abbrev pub is_unsettled : Option ReadbackOutcome → Bool
is_unsettled none = false
is_unsettled (some o) = not o.stable

-- `outcome.failed`
abbrev pub is_failed : Option ReadbackOutcome → Bool
is_failed none = false
is_failed (some o) = o.all_404

unfoldable pub readback_verdict : {V : Type 0} → V → Option ReadbackOutcome → Sourced V
readback_verdict v outcome =
    if is_failed outcome
    then readback_failed
    else if is_unsettled outcome
    then readback_unsettled
    else by_tool v

-- How `execute` ends once the messages are out: refused, or with a report and an exit code.
pub record Report : Type 0 where
  pub accounting : Accounting
  pub summary_verdict : Sourced LedgerVerdict
  pub exit_code : ℕ

pub data LedgerRun : Type 0 where
  refused : LedgerRun
  reported : Report → LedgerRun

abbrev pub code_of : LedgerRun → ℕ
code_of refused = exit_refused
code_of (reported r) = r.exit_code

-- The sentence of a reason, which the model does not spell.
abbrev pub reason_text : (Reason → Text) → Option Reason → Option Text
reason_text say none = none
reason_text say (some r) = some (say r)

module _ (py : Strings) {Email : Type 0} (grader : Grader Email) (say : Reason → Text) where
  unfoldable pub report_on : List (SentMessage Email) → Family → Lister → ReadbackOutcome → Report
  unfolding account enumerate_store verdict readback_verdict
  report_on sent family lister outcome =
      let e = enumerate_store lister in
      let a = account py grader sent outcome.readbacks e.strays family (record {
        strays_reason = reason_text say e.reason;
        strays_partial = e.partial;
        unsettled = is_unsettled (some outcome);
        readback_failed = is_failed (some outcome);
      }) in
      record {
        accounting = a;
        summary_verdict = readback_verdict (verdict a) (some outcome);
        exit_code = (if a.balanced then exit_ok else exit_mismatch);
      }

  -- What follows `read_back_all`; the lister is asked in the world that it leaves. Running out of
  -- fuel has no counterpart in the code, and `read_back_all_ends` excludes it.
  unfoldable pub after_readback :
      {W : Type 0} → List (SentMessage Email) → Family → (W → Lister) → Returned W → LedgerRun
  unfolding report_on
  after_readback sent family lister (returned outcome w) =
      reported (report_on sent family (lister w) outcome)
  after_readback sent family lister bad_poll_interval = refused
  after_readback sent family lister (adapter_error why) = refused
  after_readback sent family lister fuel_exhausted = refused

  -- `execute` from the readback on.
  unfoldable pub reconcile :
      (env : Environment)
      → ℕ
      → Settings
      → (Readback → Text)
      → List (SentMessage Email)
      → List Probe
      → Family
      → (env.World → Lister)
      → env.World
      → LedgerRun
  unfolding after_readback read_back_all
  reconcile env fuel settings repr sent probes family lister w =
      after_readback sent family lister (read_back_all env fuel settings repr probes w)
