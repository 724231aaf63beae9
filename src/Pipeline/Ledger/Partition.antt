-- ===== src/Pipeline/Ledger/Partition.antt =====
-- Every sent message lands in one list of the accounting.
use testing_hq.Prelude.{
  ℕ, ◌+◌, ◌≡◌, refl, ap, ◌∙◌, suc, length-map, length-keep_if, Bool, not, ◌&&◌, List, [], ◌∷◌,
  arith, map, length, leb, nat_beq, is_empty, keep_if, count_if, if◌then◌else◌, Option,
}
use testing_hq.Prelude.Text.{Text}
use testing_hq.Prelude.Dict.{Dict}
use testing_hq.Pipeline.Strings.{Strings}
use testing_hq.Pipeline.Readback.{Readback}
use testing_hq.Pipeline.Ledger.Tags.{Family}
use testing_hq.Pipeline.Ledger.Account.{
  SentMessage, Grader, Wrong, Tally, tally_message, tally, found_for, Accounting, Obtained, account,
}

module _ {Email : Type 0} (grader : Grader Email) (readbacks : Dict Text (List Readback)) where
  open grader use {passed}

  abbrev records_of : SentMessage Email → List Readback
  records_of m = found_for readbacks m.tag

  -- Nothing was found of a message.
  abbrev pub unseen : SentMessage Email → Bool
  unseen m = is_empty (records_of m)

  abbrev pub doubled : SentMessage Email → Bool
  doubled m = leb 2 (length (records_of m))

  abbrev pub once : SentMessage Email → Bool
  once m = nat_beq (length (records_of m)) 1

  abbrev pub right : SentMessage Email → Bool
  right m = once m && passed m (records_of m)

  abbrev pub misread : SentMessage Email → Bool
  misread m = once m && not (passed m (records_of m))

  -- How many records the messages have.
  abbrev pub total_records : List (SentMessage Email) → ℕ
  total_records [] = 0
  total_records (m ∷ ms) = length (records_of m) + total_records ms

  abbrev tags : List (SentMessage Email) → List Text
  tags = map (λ m. m.tag)

  -- The lists of the tally, each by the condition on the messages that it lists.
  pub record Tallies (readback_failed : Bool) (sent : List (SentMessage Email)) (t : Tally)
      : Type 0 where
    pub missing_eq : t.missing ≡ (if readback_failed then [] else tags (keep_if unseen sent))
    pub not_checked_eq :
        t.not_checked ≡ (if readback_failed then tags (keep_if unseen sent) else [])
    pub duplicated_eq : map (λ d. d.tag) t.duplicated ≡ tags (keep_if doubled sent)
    pub wrong_eq : map (λ (v : Wrong). v.tag) t.wrong ≡ tags (keep_if misread sent)
    pub exactly_once_eq : t.exactly_once ≡ tags (keep_if right sent)
    pub produced_eq : t.produced ≡ total_records sent

  -- The same of an accounting, which only counts the messages that are right.
  pub record Listed (sent : List (SentMessage Email)) (how : Obtained) (a : Accounting)
      : Type 0 where
    pub missing_eq : a.missing ≡ (if how.readback_failed then [] else tags (keep_if unseen sent))
    pub not_checked_eq :
        a.not_checked ≡ (if how.readback_failed then tags (keep_if unseen sent) else [])
    pub duplicated_eq : map (λ d. d.tag) a.duplicated ≡ tags (keep_if doubled sent)
    pub wrong_eq : map (λ (v : Wrong). v.tag) a.wrong ≡ tags (keep_if misread sent)
    pub exactly_once_eq : a.exactly_once ≡ count_if right sent
    pub produced_eq : a.produced ≡ total_records sent

  step-Tallies :
      (b : Bool) (m : SentMessage Email) (ms : List (SentMessage Email)) (t : Tally)
      → Tallies b ms t
      → (rs : List Readback) → records_of m ≡ rs
      → Tallies b (m ∷ ms) (tally_message grader b m rs t)
  unfolding tally_message
  step-Tallies b m ms t h [] e = ground (arith, e)
  step-Tallies b m ms t h (r ∷ []) e = ground (arith, e)
  step-Tallies b m ms t h (r ∷ q ∷ rs) e = ground (arith, e)

  pub tally-Tallies :
      (b : Bool) (sent : List (SentMessage Email)) → Tallies b sent (tally grader b readbacks sent)
  unfolding tally
  tally-Tallies b [] = ground arith
  tally-Tallies b (m ∷ ms) =
      step-Tallies b m ms (tally grader b readbacks ms) (tally-Tallies b ms) (records_of m) refl

module _ (py : Strings) {Email : Type 0} (grader : Grader Email) where
  abbrev counted : Tally → ℕ
  counted t =
      length t.missing
      + length t.not_checked
      + length t.duplicated
      + length t.wrong
      + length t.exactly_once

  message_counts :
      (b : Bool) (m : SentMessage Email) (rs : List Readback) (t : Tally)
      → counted (tally_message grader b m rs t) ≡ suc (counted t)
  unfolding tally_message
  message_counts b m [] t = ground arith
  message_counts b m (r ∷ []) t = ground arith
  message_counts b m (r ∷ q ∷ rs) t = ground arith

  -- The lists of the accounting are the sent messages, in the order in which they were sent, that
  -- have no record (missing, or not checked where the readback failed), more than one, one that is
  -- graded wrong, or one that is graded right; `produced` counts the records of all of them.
  pub account-lists :
      (sent : List (SentMessage Email)) (readbacks : Dict Text (List Readback))
      (strays : Option (List Readback)) (family : Family) (how : Obtained)
      → Listed grader readbacks sent how (account py grader sent readbacks strays family how)
  unfolding account
  account-lists sent readbacks strays family how =
      let h = tally-Tallies grader readbacks how.readback_failed sent in
      let n =
        length-map (λ (m : SentMessage Email). m.tag) (keep_if (right grader readbacks) sent) in
      let k = length-keep_if (right grader readbacks) sent in
      record {
        missing_eq = h.missing_eq;
        not_checked_eq = h.not_checked_eq;
        duplicated_eq = h.duplicated_eq;
        wrong_eq = h.wrong_eq;
        exactly_once_eq = ap length h.exactly_once_eq ∙ n ∙ k;
        produced_eq = h.produced_eq;
      }

  tally_counts :
      (b : Bool) (readbacks : Dict Text (List Readback)) (sent : List (SentMessage Email))
      → counted (tally grader b readbacks sent) ≡ length sent
  unfolding tally
  tally_counts b readbacks [] = refl
  tally_counts b readbacks (m ∷ ms) = ground (
    arith,
    message_counts b m (found_for readbacks m.tag) (tally grader b readbacks ms),
    tally_counts b readbacks ms,
  )

  -- The lengths of the five lists of the accounting add up to the number of messages sent.
  pub every_message_counted :
      (sent : List (SentMessage Email)) (readbacks : Dict Text (List Readback))
      (strays : Option (List Readback)) (family : Family) (how : Obtained)
      → let a = account py grader sent readbacks strays family how in
        length a.missing
          + length a.not_checked
          + length a.duplicated
          + length a.wrong
          + a.exactly_once
        ≡ a.sent
  unfolding account
  every_message_counted sent readbacks strays family how = omega (
    arith,
    tally_counts how.readback_failed readbacks sent,
    length-map (λ (m : SentMessage Email). m.tag) sent,
  )
