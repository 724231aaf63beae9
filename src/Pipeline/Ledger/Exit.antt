-- ===== src/Pipeline/Ledger/Exit.antt =====
-- The exit code of a ledger run, from the readback to the report.
use testing_hq.Prelude.{
  ℕ, ◌≡◌, ◌↔◌, ◌⊎◌, inl, inr, refl, Bool, true, false, not, Option, none, some, List, arith, all,
  if◌then◌else◌,
}
use testing_hq.Prelude.Text.{Text}
use testing_hq.Core.ExitCodes.{exit_ok, exit_mismatch}
use testing_hq.Pipeline.Strings.{Strings}
use testing_hq.Prelude.Dict.{Dict}
use testing_hq.Pipeline.Readback.{Readback}
use testing_hq.Pipeline.Settle.{ReadbackOutcome}
use testing_hq.Pipeline.Ledger.Tags.{Family}
use testing_hq.Pipeline.Ledger.Account.{SentMessage, Grader, Accounting, Obtained, account}
use testing_hq.Pipeline.Ledger.Enumerate.{
  Declared, undeclared, declared_as, method_answers, method_raises, Listing, list_failed, listed,
  can_enumerate, adapter_cannot_enumerate, listing_result, Lister, Reason, Enumerated,
  enumerate_store,
}
use testing_hq.Pipeline.Ledger.Verdict.{
  LedgerVerdict, balanced, unsettled, readback_failed_verdict, verdict, Sourced, readback_failed,
  readback_unsettled, by_tool, readback_verdict, reason_text, report_on,
}
use testing_hq.Pipeline.Ledger.Partition.{right}
use testing_hq.Pipeline.Ledger.Balance.{lists_extra, no_strays, balanced_iff, verdict_balanced_iff}

-- A verdict about a readback that neither failed nor was unsettled.
abbrev pub about_settled : LedgerVerdict → Bool
about_settled readback_failed_verdict = false
about_settled unsettled = false
about_settled _ = true

-- What the report's verdict says of the readback, and of the exit code.
abbrev pub Says : ReadbackOutcome → ℕ → Sourced LedgerVerdict → Type 0
Says o code readback_failed = (o.all_404 ≡ true) × (code ≡ exit_mismatch)
Says o code readback_unsettled = (o.all_404 ≡ false) × (o.stable ≡ false) × (code ≡ exit_mismatch)
Says o code (by_tool v) =
    (o.all_404 ≡ false)
    × (o.stable ≡ true)
    × (about_settled v ≡ true)
    × ((v ≡ balanced) ↔ (code ≡ exit_ok))
    × ((code ≡ exit_ok) ⊎ (code ≡ exit_mismatch))

verdict_settled :
    (a : Accounting)
    → a.unsettled ≡ false
    → a.readback_failed ≡ false
    → about_settled (verdict a) ≡ true
unfolding verdict
verdict_settled a u f = ground arith

exit_code_cases :
    (b : Bool) (v : LedgerVerdict)
    → (v ≡ balanced) ↔ (b ≡ true)
    → ((v ≡ balanced) ↔ ((if b then exit_ok else exit_mismatch) ≡ exit_ok))
      × (((if b then exit_ok else exit_mismatch) ≡ exit_ok)
          ⊎ ((if b then exit_ok else exit_mismatch) ≡ exit_mismatch))
exit_code_cases true v h = (((λ e. refl), (λ e. h.1 refl)), inl refl)
exit_code_cases false v h = (((λ e. cc (h.0 e)), (λ e. cc)), inr refl)

Says-intro :
    (failed stable : Bool) (a : Accounting) (o : ReadbackOutcome)
    → o.all_404 ≡ failed
    → o.stable ≡ stable
    → a.readback_failed ≡ failed
    → a.unsettled ≡ not stable
    → (failed ≡ true → a.balanced ≡ false)
    → (stable ≡ false → a.balanced ≡ false)
    → (verdict a ≡ balanced) ↔ (a.balanced ≡ true)
    → Says o (if a.balanced then exit_ok else exit_mismatch) (
        if failed
        then readback_failed
        else if not stable
        then readback_unsettled
        else by_tool (verdict a))
Says-intro true stable a o f s rf un bf bs h = ground (arith, bf refl)
Says-intro false false a o f s rf un bf bs h = ground (arith, bs refl)
Says-intro false true a o f s rf un bf bs h =
    let c = exit_code_cases a.balanced (verdict a) h in (f, s, verdict_settled a un rf, c.0, c.1)

-- Whether an adapter says of itself that it can list its records.
abbrev may_list : Declared → Bool
may_list undeclared = true
may_list (declared_as b) = b
may_list (method_answers b) = b
may_list (method_raises why) = false

-- The store may be listed, and `list_all()` gave these records and did not stop short.
abbrev pub ListedInWhole : Lister → List Readback → Type 0
ListedInWhole a records =
    (a.enumerate_off ≡ false)
    × (may_list a.declared ≡ true)
    × (a.list_all ≡ some (listed records false))

-- A settled readback in which every sent message has exactly one record, graded right, and a
-- store that list_all listed in whole, without an extra record.
abbrev pub AllAccounted :
    Strings
    → {Email : Type 0} → Grader Email
    → List (SentMessage Email)
    → Family
    → Lister
    → ReadbackOutcome
    → Type 0
AllAccounted py grader sent family lister o =
    (o.stable ≡ true)
    × (o.all_404 ≡ false)
    × (all (right grader o.readbacks) sent ≡ true)
    × (records : List Readback) × ListedInWhole lister records
    × (lists_extra grader py sent o.readbacks family records ≡ false)

module _ (py : Strings) {Email : Type 0} (grader : Grader Email) (sent : List (SentMessage Email))
    (readbacks : Dict Text (List Readback)) (family : Family) where
  abbrev Clear : Enumerated → Type 0
  Clear e = no_strays grader py sent readbacks family e.strays e.partial ≡ true

  abbrev Whole : Lister → Type 0
  Whole a =
      (records : List Readback) × ListedInWhole a records
      × (lists_extra grader py sent readbacks family records ≡ false)

  able_Whole :
      (a : Lister) (l : Option Listing) (d : Declared)
      → a.list_all ≡ l
      → a.declared ≡ d
      → Clear (enumerate_store a)
      → Whole a
  unfolding enumerate_store adapter_cannot_enumerate can_enumerate listing_result
  able_Whole a none d e f h = let no : ⊥ = ground (arith, e, f, h) in elim no [ ]
  able_Whole a (some (list_failed why)) d e f h =
      let no : ⊥ = ground (arith, e, f, h) in elim no [ ]
  able_Whole a (some (listed records true)) d e f h =
      let no : ⊥ = ground (arith, e, f, h) in elim no [ ]
  able_Whole a (some (listed records false)) d e f h =
      (records, (ground (arith, e, f, h), ground (arith, e, f, h), e), ground (arith, e, f, h))

  Whole-able : (a : Lister) (d : Declared) → a.declared ≡ d → Whole a → Clear (enumerate_store a)
  unfolding enumerate_store adapter_cannot_enumerate can_enumerate listing_result
  Whole-able a d f (records, (off, may, e), clear) = ground (arith, f, off, may, e, clear)

module _ (py : Strings) {Email : Type 0} (grader : Grader Email) (say : Reason → Text) where
  -- READBACK FAILED stands for a readback whose every lookup was a 404, UNSETTLED for another one
  -- that did not settle, both with exit code 3. Any other verdict is about a settled readback, and
  -- the exit code is 0 if and only if it is BALANCED, and 3 otherwise.
  pub verdict-Says :
      (sent : List (SentMessage Email)) (family : Family) (lister : Lister) (o : ReadbackOutcome)
      → let r = report_on py grader say sent family lister o in Says o r.exit_code r.summary_verdict
  unfolding report_on readback_verdict account
  verdict-Says sent family lister o =
      let e = enumerate_store lister in
      let how : Obtained = record {
        strays_reason = reason_text say e.reason;
        strays_partial = e.partial;
        unsettled = not o.stable;
        readback_failed = o.all_404;
      } in
      Says-intro o.all_404 o.stable (account py grader sent o.readbacks e.strays family how) o refl
        refl refl refl (λ f. ground arith) (λ f. ground arith)
        (verdict_balanced_iff py grader sent o.readbacks e.strays family how)

  -- A ledger that reports on an outcome exits with 0 if and only if the readback settled and did
  -- not fail, every sent message has exactly one record, graded right, and the adapter may list its
  -- store, list_all gave its records, without raising or stopping short, and none of them is extra.
  pub exit_ok_iff :
      (sent : List (SentMessage Email)) (family : Family) (lister : Lister) (o : ReadbackOutcome)
      → ((report_on py grader say sent family lister o).exit_code ≡ exit_ok)
        ↔ AllAccounted py grader sent family lister o
  unfolding report_on
  exit_ok_iff sent family lister o =
      let b = balanced_iff py grader sent o.readbacks e.strays family how in
      (
        (λ h.
            let (stable, answered, all_right, clear) = b.0 (ground (arith, h)) in
            let (records, whole, none_extra) =
              able_Whole py grader sent o.readbacks family lister lister.list_all lister.declared
                refl refl clear in
            (ground (arith, stable), answered, all_right, records, whole, none_extra)),
        (λ (stable, answered, all_right, records, whole, none_extra).
            let balances = b.1 (
              ground (arith, stable),
              answered,
              all_right,
              Whole-able py grader sent o.readbacks family lister lister.declared refl
                  (records, whole, none_extra),
            ) in
            ground (arith, balances)),
      )
    where
      e : Enumerated
      e = enumerate_store lister

      how : Obtained
      how = record {
        strays_reason = reason_text say e.reason;
        strays_partial = e.partial;
        unsettled = not o.stable;
        readback_failed = o.all_404;
      }
