-- ===== src/Pipeline/Ledger/Account.antt =====
-- The accounting: `account` of testinghq/pipeline/ledger.py. A message's content is graded by
-- `evaluate_sequence`, which `Grader` stands for.
use testing_hq.Prelude.{
  ℕ, ◌+◌, Bool, false, not, ◌&&◌, Option, none, some, List, [], ◌∷◌, ◌++◌, map, length, take,
  is_empty, is_some, if◌then◌else◌,
}
use testing_hq.Prelude.Text.{Text, text_eq, codes}
use testing_hq.Prelude.Dict.{Dict, lookup}
use testing_hq.Pipeline.Strings.{Strings}
use testing_hq.Pipeline.Readback.{Readback}
use testing_hq.Pipeline.Ledger.Tags.{Family}
use testing_hq.Pipeline.Ledger.Strays.{Entry, Sorted, str, classify_strays}

-- What the tools read of a sent message; `Email` is the payload's type, `delivered` and `status`
-- are `result.sent` and `result.status`.
pub record SentMessage (Email : Type 0) : Type 0 where
  pub record_id : Text
  pub tag : Text
  pub email : Email
  pub delivered : Bool
  pub status : Option ℕ

-- `verification.passed` and `verification.mismatch_strings()` of the records of a message.
pub record Grader (Email : Type 0) : Type 0 where
  pub passed : SentMessage Email → List Readback → Bool
  pub mismatch_strings : SentMessage Email → List Readback → List Text

pub record Duplicate : Type 0 where
  pub tag : Text
  pub count : ℕ
  pub tickets : List Text

pub record Wrong : Type 0 where
  pub tag : Text
  pub record_id : Text
  pub mismatches : List Text

-- The lists that the loop over the messages fills.
pub record Tally : Type 0 where
  pub missing : List Text
  pub duplicated : List Duplicate
  pub wrong : List Wrong
  pub exactly_once : List Text
  pub not_checked : List Text
  pub produced : ℕ

abbrev pub nothing_tallied : Tally
nothing_tallied = record {
  missing = [];
  duplicated = [];
  wrong = [];
  exactly_once = [];
  not_checked = [];
  produced = 0;
}

-- readbacks.get(tag, [])
unfoldable pub found_for : Dict Text (List Readback) → Text → List Readback
found_for readbacks tag = elim (lookup tag readbacks) [ none ↦ [] | some rs ↦ rs ]

abbrev pub ticket_of : Readback → Text
ticket_of r = str r.ticket_id

-- [str(r.ticket_id) for found in readbacks.values() for r in found]
unfoldable pub own_tickets : Dict Text (List Readback) → List Text
own_tickets [] = []
own_tickets ((tag, found) ∷ rest) = map ticket_of found ++ own_tickets rest

module _ {Email : Type 0} (grader : Grader Email) where
  open grader use {passed, mismatch_strings}

  -- The body of the loop. Later messages are tallied in `t`, so a list keeps the messages' order.
  unfoldable pub tally_message : Bool → SentMessage Email → List Readback → Tally → Tally
  tally_message readback_failed m [] t =
      if readback_failed
      then record t { not_checked = m.tag ∷ t.not_checked }
      else record t { missing = m.tag ∷ t.missing }
  tally_message readback_failed m (r ∷ []) t =
      if passed m (r ∷ [])
      then record t { produced = 1 + t.produced; exactly_once = m.tag ∷ t.exactly_once }
      else record t {
        produced = 1 + t.produced;
        wrong =
            record {
              tag = m.tag;
              record_id = m.record_id;
              mismatches = mismatch_strings m (r ∷ []);
            }
            ∷ t.wrong;
      }
  tally_message readback_failed m (r ∷ q ∷ rs) t = record t {
    produced = length (r ∷ q ∷ rs) + t.produced;
    duplicated =
        record { tag = m.tag; count = length (r ∷ q ∷ rs); tickets = map ticket_of (r ∷ q ∷ rs) }
        ∷ t.duplicated;
  }

  unfoldable pub tally : Bool → Dict Text (List Readback) → List (SentMessage Email) → Tally
  unfolding tally_message found_for
  tally readback_failed readbacks [] = nothing_tallied
  tally readback_failed readbacks (m ∷ ms) =
      tally_message readback_failed m (found_for readbacks m.tag)
        (tally readback_failed readbacks ms)

pub record Accounting : Type 0 where
  pub sent : ℕ
  pub produced : ℕ
  pub exactly_once : ℕ
  pub missing : List Text
  pub duplicated : List Duplicate
  pub wrong : List Wrong
  pub extra : Option (List Entry)
  pub extra_count : Option ℕ
  pub other_runs : Option (List Entry)
  pub other_runs_count : Option ℕ
  pub untagged_count : Option ℕ
  pub strays_searched : Bool
  pub strays_partial : Bool
  pub strays_not_searched_reason : Option Text
  pub unsettled : Bool
  pub readback_failed : Bool
  pub not_checked : List Text
  pub balanced : Bool

abbrev pub max_artifact_strays : ℕ
max_artifact_strays = 200

abbrev pub over : {A B : Type 0} → (A → B) → Option A → Option B
over f none = none
over f (some a) = some (f a)

-- The truth value of a list that may be None.
abbrev pub has_some : {A : Type 0} → Option (List A) → Bool
has_some none = false
has_some (some xs) = not (is_empty xs)

-- `strays_reason or "..."`
abbrev pub reason_or : Option Text → Text → Text
reason_or none d = d
reason_or (some r) d = if is_empty r then d else r

-- The keyword arguments of `account` that say how the readbacks were obtained.
pub record Obtained : Type 0 where
  pub strays_reason : Option Text
  pub strays_partial : Bool
  pub unsettled : Bool
  pub readback_failed : Bool

module _ (py : Strings) {Email : Type 0} (grader : Grader Email) where
  unfoldable pub account :
      List (SentMessage Email)
      → Dict Text (List Readback)
      → Option (List Readback)
      → Family
      → Obtained
      → Accounting
  unfolding tally own_tickets classify_strays
  account sent readbacks strays family how =
      let sent_tags = map (λ (m : SentMessage Email). m.tag) sent in
      let t = tally grader how.readback_failed readbacks sent in
      let searched = is_some strays && not how.strays_partial in
      let sorted =
        over (λ rs. classify_strays py rs sent_tags (own_tickets readbacks) family) strays in
      let extra = over (λ (s : Sorted). s.extra) sorted in
      let other = over (λ (s : Sorted). s.other_runs) sorted in
      record {
        sent = length sent_tags;
        produced = t.produced;
        exactly_once = length t.exactly_once;
        missing = t.missing;
        duplicated = t.duplicated;
        wrong = t.wrong;
        extra = over (take max_artifact_strays) extra;
        extra_count = over length extra;
        other_runs = over (take max_artifact_strays) other;
        other_runs_count = over length other;
        untagged_count = over (λ (s : Sorted). s.untagged) sorted;
        strays_searched = searched;
        strays_partial = is_some strays && how.strays_partial;
        strays_not_searched_reason =
            (if searched
              then none
              else some (
                  reason_or how.strays_reason (codes "this adapter cannot enumerate its records")));
        unsettled = how.unsettled;
        readback_failed = how.readback_failed;
        not_checked = t.not_checked;
        balanced =
            is_empty t.missing
            && (is_empty t.duplicated
                && (is_empty t.wrong
                    && (searched
                        && (not (has_some extra)
                            && (not how.unsettled && not how.readback_failed)))));
      }
