-- ===== src/Pipeline/Redeliver/StrayFindings.antt =====
-- That a stray of the run shows, and what makes the verdict of a redelivery run.
use testing_hq.Prelude.{
  ℕ, ◌≡◌, inl, inr, refl, Bool, true, false, not, ◌&&◌, Option, none, some, List, [], ◌∷◌, arith,
  map, length, all, any, is_empty, nat_beq, ltb, Option-cases,
}
use testing_hq.Prelude.Text.{Text, text_eq}
use testing_hq.Core.ExitCodes.{exit_ok}
use testing_hq.Pipeline.Strings.{Strings}
use testing_hq.Pipeline.Settle.{ReadbackOutcome}
use testing_hq.Pipeline.Ledger.Strays.{Entry}
use testing_hq.Pipeline.Ledger.Verdict.{is_failed, is_unsettled, readback_verdict}
use testing_hq.Pipeline.Redeliver.Judge.{stray_record, ScenarioResult, passed}
use testing_hq.Pipeline.Redeliver.Clean.{is_empty-append}
use testing_hq.Pipeline.Redeliver.Run.{
  owner_name, add_to_owner, give_stray, give_owned, give_strays, RunResult, not_searched, has_real,
  has_finding, has_unchecked, verdict_of, exit_code_for, redeliver_code,
}

all_passed :
    (rs : List ScenarioResult)
    → (not (any has_finding rs) && not (any has_unchecked rs)) ≡ all passed rs
unfolding passed
all_passed [] = refl
all_passed (r ∷ rs) = ground (arith, all_passed rs)

more_nonempty :
    {A : Type 0} (xs : List A) (n : ℕ) → ltb n (length xs) ≡ true → not (is_empty xs) ≡ true
more_nonempty [] n h = ground arith
more_nonempty (x ∷ xs) n h = refl

has_finding_real : (r : ScenarioResult) → has_real r ≡ true → has_finding r ≡ true
has_finding_real r h = more_nonempty r.findings (length r.missing) h

real-finding : (rs : List ScenarioResult) → any has_real rs ≡ true → any has_finding rs ≡ true
real-finding [] h = cc
real-finding (r ∷ rs) h = ground (arith, real-finding rs, has_finding_real r)

-- The verdict.
pub code_ok :
    (run : RunResult) (outcome : ReadbackOutcome)
    → nat_beq (redeliver_code run outcome) exit_ok ≡ (
        not (is_failed (some outcome))
        && (not (is_unsettled (some outcome))
            && (is_empty run.unattributed && all passed run.results)))
unfolding redeliver_code verdict_of readback_verdict exit_code_for
code_ok run outcome = ground (arith, all_passed run.results, real-finding run.results)

-- A result that a stray can be added to.
abbrev pub fresh : ScenarioResult → Bool
fresh r = is_empty r.strays

add_to_owner-finding :
    (e : Entry) (r : ScenarioResult) → has_finding r ≡ true → has_finding (add_to_owner e r) ≡ true
unfolding add_to_owner
add_to_owner-finding e r h =
    ground (arith, is_empty-append r.findings (stray_record e.ticket e.tag ∷ []))

length-fresh : (es : List Entry) → is_empty es ≡ true → length es ≡ 0
length-fresh [] h = refl
length-fresh (e ∷ es) h = cc

add_to_owner-fresh :
    (e : Entry) (r : ScenarioResult) → fresh r ≡ true → has_finding (add_to_owner e r) ≡ true
unfolding add_to_owner
add_to_owner-fresh e r h =
    ground
      (arith, is_empty-append r.findings (stray_record e.ticket e.tag ∷ []), length-fresh r.strays)

give_stray-keeps :
    (name : Text) (e : Entry) (rs given : List ScenarioResult)
    → give_stray name e rs ≡ some given
    → any has_finding rs ≡ true
    → any has_finding given ≡ true
unfolding give_stray
give_stray-keeps name e [] given h k = cc
give_stray-keeps name e (r ∷ rs) given h k = elim (Option-cases (give_stray name e rs)) [
  | inl f ↦ ground (arith, add_to_owner-finding e r)
  | inr (more, f) ↦ ground (arith, give_stray-keeps name e rs more f)
]

give_stray-adds :
    (name : Text) (e : Entry) (rs given : List ScenarioResult)
    → give_stray name e rs ≡ some given
    → all fresh rs ≡ true
    → any has_finding given ≡ true
unfolding give_stray
give_stray-adds name e [] given h k = cc
give_stray-adds name e (r ∷ rs) given h k = elim (Option-cases (give_stray name e rs)) [
  | inl f ↦ ground (arith, add_to_owner-fresh e r)
  | inr (more, f) ↦ ground (arith, give_stray-adds name e rs more f)
]

give_owned-keeps :
    (name : Option Text) (e : Entry) (rs given : List ScenarioResult)
    → give_owned name e rs ≡ some given
    → any has_finding rs ≡ true
    → any has_finding given ≡ true
give_owned-keeps none e rs given h k = cc
give_owned-keeps (some name) e rs given h k = give_stray-keeps name e rs given h k

give_owned-adds :
    (name : Option Text) (e : Entry) (rs given : List ScenarioResult)
    → give_owned name e rs ≡ some given
    → all fresh rs ≡ true
    → any has_finding given ≡ true
give_owned-adds none e rs given h k = cc
give_owned-adds (some name) e rs given h k = give_stray-adds name e rs given h k

module _ (py : Strings) (tag_prefix : Text) where
  give_strays-keeps :
      (es : List Entry) (rs : List ScenarioResult)
      → any has_finding rs ≡ true
      → any has_finding (give_strays py tag_prefix es rs).0 ≡ true
  unfolding give_strays
  give_strays-keeps [] rs h = h
  give_strays-keeps (e ∷ es) rs h =
      elim (Option-cases (give_owned (owner_name py tag_prefix e.tag) e rs)) [
        | inl f ↦ ground (arith, give_strays-keeps es rs h)
        | inr (given, f) ↦ ground (
          arith,
          give_strays-keeps es given,
          give_owned-keeps (owner_name py tag_prefix e.tag) e rs given f h,
        )
      ]

  -- A stray shows: in a scenario's result, or beside the results.
  give_strays-shows :
      (e : Entry) (es : List Entry) (rs : List ScenarioResult)
      → all fresh rs ≡ true
      → (is_empty (give_strays py tag_prefix (e ∷ es) rs).1
          && not (any has_finding (give_strays py tag_prefix (e ∷ es) rs).0))
        ≡ false
  unfolding give_strays
  give_strays-shows e es rs h =
      elim (Option-cases (give_owned (owner_name py tag_prefix e.tag) e rs)) [
        | inl f ↦ ground arith
        | inr (given, f) ↦ ground (
          arith,
          give_strays-keeps es given,
          give_owned-adds (owner_name py tag_prefix e.tag) e rs given f h,
        )
      ]

  pub give_strays-clean :
      (es : List Entry) (rs : List ScenarioResult)
      → all fresh rs ≡ true
      → (is_empty (give_strays py tag_prefix es rs).1
          && all passed (give_strays py tag_prefix es rs).0)
        ≡ (is_empty es && all passed rs)
  unfolding give_strays
  give_strays-clean [] rs h = ground arith
  give_strays-clean (e ∷ es) rs h =
      ground
        (arith, give_strays-shows e es rs h, all_passed (give_strays py tag_prefix (e ∷ es) rs).0)

pub all_passed-not_searched :
    (rs : List ScenarioResult) → all passed (map not_searched rs) ≡ all passed rs
unfolding passed
all_passed-not_searched [] = refl
all_passed-not_searched (r ∷ rs) = ground (arith, all_passed-not_searched rs)

pub all-fresh-not_searched :
    (rs : List ScenarioResult) → all fresh (map not_searched rs) ≡ all fresh rs
all-fresh-not_searched [] = refl
all-fresh-not_searched (r ∷ rs) = ground (arith, all-fresh-not_searched rs)
