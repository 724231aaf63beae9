-- ===== src/Pipeline/Ledger/Run.antt =====
-- What an exit code of 0 says of a whole ledger run, from its first poll to its report.
use testing_hq.Prelude.{ℕ, ◌+◌, ◌≡◌, refl, true, none, List, []}
use testing_hq.Prelude.Text.{Text}
use testing_hq.Core.ExitCodes.{exit_ok}
use testing_hq.Pipeline.Strings.{Strings}
use testing_hq.Pipeline.Readback.{Probe, Readback}
use testing_hq.Pipeline.Settle.{
  Environment, Settings, ReadbackOutcome, Returned, returned, bad_poll_interval, adapter_error,
  fuel_exhausted, read_back_all, probes_by_tag, IsTimely, passed, held_since,
}
use testing_hq.Pipeline.Settle.Rule.{Explained, first_world, settling_rule}
use testing_hq.Pipeline.Ledger.Tags.{Family}
use testing_hq.Pipeline.Ledger.Account.{SentMessage, Grader}
use testing_hq.Pipeline.Ledger.Enumerate.{Lister, Reason}
use testing_hq.Pipeline.Ledger.Verdict.{code_of, after_readback, reconcile}
use testing_hq.Pipeline.Ledger.Exit.{AllAccounted, exit_ok_iff}

module _ (py : Strings) {Email : Type 0} (grader : Grader Email) (say : Reason → Text)
    (sent : List (SentMessage Email)) (family : Family) where
  -- A readback that returned, and an accounting of what it returned that is all right.
  abbrev pub Accounted : {W : Type 0} → (W → Lister) → Returned W → Type 0
  Accounted {W = W} lister r =
      (o : ReadbackOutcome) × (w : W) × (r ≡ returned o w)
      × AllAccounted py grader sent family (lister w) o

  after_readback_ok :
      {W : Type 0} (lister : W → Lister) (r : Returned W)
      → code_of (after_readback py grader say sent family lister r) ≡ exit_ok
      → Accounted lister r
  unfolding after_readback
  after_readback_ok lister (returned o w) e =
      (o, w, refl, (exit_ok_iff py grader say sent family (lister w) o).0 e)
  after_readback_ok lister bad_poll_interval e = cc
  after_readback_ok lister (adapter_error why) e = cc
  after_readback_ok lister fuel_exhausted e = cc

  module _ (env : Environment) (laws : IsTimely env) (settings : Settings) (repr : Readback → Text)
      (probes : List Probe) (lister : env.World → Lister) where
    open env use {World, clock, bind_clock}

    -- A settled outcome, with the polls that show it, and everything accounted for.
    pub record Proven (w : World) : Type 0 where
      pub outcome : ReadbackOutcome
      pub world : World
      pub accounted : AllAccounted py grader sent family (lister world) outcome
      pub explained :
          Explained env laws settings repr
            ((clock w).0 + settings.max_wait)
            (probes_by_tag probes [])
            (first_world env laws settings repr w)
            outcome
      pub held :
          passed
            (held_since explained.polls)
            settings.quiet_window
            (clock (bind_clock none explained.final_world)).0
          ≡ true

    -- Where a ledger run exits with 0, its readback returned an outcome that settled and did not
    -- fail, with polls from the world of the call on that lead to it and whose newest run of
    -- identical ones (two at least) began at least the quiet window before its end; every sent
    -- message has exactly one record, graded right; and the adapter may list its store, list_all
    -- gave its records, without raising or stopping short, and none of them is extra.
    pub exit_ok_means :
        (fuel : ℕ) (w : World)
        → code_of (reconcile py grader say env fuel settings repr sent probes family lister w)
          ≡ exit_ok
        → Proven w
    unfolding reconcile
    exit_ok_means fuel w e =
        let (o, w', returns, fine) =
          after_readback_ok lister (read_back_all env fuel settings repr probes w) e in
        let x = settling_rule env laws settings repr fuel probes w w' o returns in
        record {
          outcome = o;
          world = w';
          accounted = fine;
          explained = x;
          held = (x.settles.stable_iff.0 fine.0).0;
        }
