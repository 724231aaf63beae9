-- ===== src/Pipeline/Ledger/Balance.antt =====
-- What a balanced ledger says, and that its verdict says the same.
use testing_hq.Prelude.{
  ◌≡◌, ◌↔◌, refl, ap, Bool, true, false, not, ◌&&◌, ◌||◌, Option, none, some, List, [], ◌∷◌, arith,
  nat_beq, ◌∙◌, map, length, is_empty, is_some, any, all,
}
use testing_hq.Prelude.Text.{Text}
use testing_hq.Prelude.Dict.{Dict}
use testing_hq.Pipeline.Strings.{Strings}
use testing_hq.Pipeline.Readback.{Readback}
use testing_hq.Pipeline.Ledger.Tags.{Family}
use testing_hq.Pipeline.Ledger.Strays.{
  Sorted, Stray, own, untagged_record, extra_record, other_run, stray_kind, add_stray,
  classify_strays,
}
use testing_hq.Pipeline.Ledger.Account.{
  SentMessage, Grader, Tally, tally_message, tally, found_for, own_tickets, Obtained, account, over,
  has_some,
}
use testing_hq.Pipeline.Ledger.Verdict.{balanced, verdict}
use testing_hq.Pipeline.Ledger.Partition.{right}

abbrev pub is_extra : Stray → Bool
is_extra own = false
is_extra untagged_record = false
is_extra (extra_record e) = true
is_extra (other_run e) = false

module _ (py : Strings) (sent own : List Text) (family : Family) where
  abbrev kind : Readback → Stray
  kind = stray_kind py sent own family

  add_stray_extra :
      (k : Stray) (s : Sorted) (b : Bool)
      → is_empty s.extra ≡ not b
      → is_empty (add_stray k s).extra ≡ not (is_extra k || b)
  unfolding add_stray
  add_stray_extra Stray.own s b h = h
  add_stray_extra untagged_record s b h = h
  add_stray_extra (extra_record e) s b h = refl
  add_stray_extra (other_run e) s b h = h

  pub no_extra :
      (rs : List Readback)
      → is_empty (classify_strays py rs sent own family).extra
        ≡ not (any (λ r. is_extra (kind r)) rs)
  unfolding classify_strays
  no_extra [] = refl
  no_extra (r ∷ rs) =
      add_stray_extra (kind r) (classify_strays py rs sent own family)
        (any (λ q. is_extra (kind q)) rs) (no_extra rs)

module _ {Email : Type 0} (grader : Grader Email) where
  abbrev clean : Tally → Bool
  clean t = is_empty t.missing && (is_empty t.duplicated && is_empty t.wrong)

  abbrev graded_right : SentMessage Email → List Readback → Bool
  graded_right m rs = nat_beq (length rs) 1 && grader.passed m rs

  message_clean :
      (m : SentMessage Email) (rs : List Readback) (t : Tally)
      → clean (tally_message grader false m rs t) ≡ (graded_right m rs && clean t)
  unfolding tally_message
  message_clean m [] t = ground arith
  message_clean m (r ∷ []) t = ground arith
  message_clean m (r ∷ q ∷ rs) t = ground arith

  clean-tally :
      (readbacks : Dict Text (List Readback)) (sent : List (SentMessage Email))
      → clean (tally grader false readbacks sent) ≡ all (right grader readbacks) sent
  unfolding tally
  clean-tally readbacks [] = refl
  clean-tally readbacks (m ∷ ms) =
      message_clean m (found_for readbacks m.tag) (tally grader false readbacks ms)
      ∙ ap (λ b. right grader readbacks m && b) (clean-tally readbacks ms)

  settled_clean :
      (b : Bool) (readbacks : Dict Text (List Readback)) (sent : List (SentMessage Email))
      → (not b && clean (tally grader b readbacks sent))
        ≡ (not b && all (right grader readbacks) sent)
  settled_clean true readbacks sent = refl
  settled_clean false readbacks sent = clean-tally readbacks sent

  -- Whether the enumeration lists a record that is this run's by its tag, and that it did not send.
  abbrev pub lists_extra :
      Strings → List (SentMessage Email) → Dict Text (List Readback) → Family → List Readback → Bool
  lists_extra py sent readbacks family rs =
      any
        (λ r. is_extra (
          stray_kind py (map (λ (m : SentMessage Email). m.tag) sent) (own_tickets readbacks) family
            r))
        rs

  -- A listing that went to its end, without an extra record.
  abbrev pub no_strays :
      Strings
      → List (SentMessage Email)
      → Dict Text (List Readback)
      → Family
      → Option (List Readback)
      → Bool
      → Bool
  no_strays py sent readbacks family none partial = false
  no_strays py sent readbacks family (some rs) partial =
      not partial && not (lists_extra py sent readbacks family rs)

searched_clear :
    (py : Strings) {Email : Type 0} (grader : Grader Email) (sent : List (SentMessage Email))
    (readbacks : Dict Text (List Readback)) (strays : Option (List Readback)) (family : Family)
    (partial : Bool)
    → ((is_some strays && not partial)
        && not (
            has_some (
              over
                (λ (s : Sorted). s.extra)
                (over
                  (λ rs.
                    classify_strays py rs
                      (map (λ (m : SentMessage Email). m.tag) sent)
                      (own_tickets readbacks)
                      family)
                  strays))))
      ≡ no_strays grader py sent readbacks family strays partial
searched_clear py grader sent readbacks none family partial = refl
searched_clear py grader sent readbacks (some rs) family partial =
    ground (arith, no_extra py (map (λ m. m.tag) sent) (own_tickets readbacks) family rs)

module _ (py : Strings) {Email : Type 0} (grader : Grader Email) (sent : List (SentMessage Email))
    (readbacks : Dict Text (List Readback)) (strays : Option (List Readback)) (family : Family)
    (how : Obtained) where
  -- A ledger is balanced if and only if the readback settled and did not fail, every sent message
  -- has exactly one record and it is graded right, and the store was listed to its end and listed
  -- no extra record.
  pub balanced_iff : ((account py grader sent readbacks strays family how).balanced ≡ true) ↔ (
      (how.unsettled ≡ false)
      × (how.readback_failed ≡ false)
      × (all (right grader readbacks) sent ≡ true)
      × (no_strays grader py sent readbacks family strays how.strays_partial ≡ true))
  unfolding account
  balanced_iff = ground (
    arith,
    settled_clean grader how.readback_failed readbacks sent,
    searched_clear py grader sent readbacks strays family how.strays_partial,
  )

  -- A ledger is balanced if and only if its verdict is BALANCED.
  pub verdict_balanced_iff :
      (verdict (account py grader sent readbacks strays family how) ≡ balanced)
      ↔ ((account py grader sent readbacks strays family how).balanced ≡ true)
  unfolding verdict account
  verdict_balanced_iff = ground arith
