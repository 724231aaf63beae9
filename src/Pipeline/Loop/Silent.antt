-- ===== src/Pipeline/Loop/Silent.antt =====
-- Messages without outbound mail, in terms of the records of the sink.
use testing_hq.Prelude.{
  ◌≡◌, refl, Bool, true, not, ◌&&◌, Option, some, List, [], ◌∷◌, arith, all, map, is_some, ◌++◌, ap,
  sym, ◌∙◌, is_empty,
}
use testing_hq.Prelude.Text.{Text, text_eq, text_beq_iff}
use testing_hq.Prelude.Dict.{Dict, insert}
use testing_hq.Prelude.Distinct.{mem}
use testing_hq.Pipeline.Readback.{Readback}
use testing_hq.Pipeline.Readback.Normalize.{Words}
use testing_hq.Pipeline.Settle.{ReadbackOutcome}
use testing_hq.Pipeline.Ledger.Account.{found_for}
use testing_hq.Pipeline.Loop.{TicketPolicy, MachineMail}
use testing_hq.Pipeline.Loop.Merged.{is_tied, merged_none, left_none}
use testing_hq.Pipeline.Loop.Attributed.{
  tags_apart, not_judged, of_precursor, attribute-of_precursor,
}
use testing_hq.Pipeline.Loop.Outbound.{threaded_ids, ids_of, attribute, merge_outbound}
use testing_hq.Pipeline.Loop.Judged.{mail_fine}
use testing_hq.Pipeline.Loop.Tickets.{no_ticket, ticket_fine-no_ticket}

all_eq : {A : Type 0} (p q : A → Bool) → ((x : A) → p x ≡ q x) → (xs : List A) → all p xs ≡ all q xs
all_eq p q h [] = refl
all_eq p q h (x ∷ xs) = ground (arith, h x, all_eq p q h xs)

all_and :
    {A : Type 0} (p q : A → Bool) (xs : List A) → all (λ x. p x && q x) xs ≡ (all p xs && all q xs)
all_and p q [] = refl
all_and p q (x ∷ xs) = ground (arith, all_and p q xs)

holds_for_all : {A : Type 0} (xs : List A) → all (λ x. true) xs ≡ true
holds_for_all [] = refl
holds_for_all (x ∷ xs) = holds_for_all xs

all_swap :
    {A B : Type 0} (g : A → B → Bool) (xs : List A) (ys : List B)
    → all (λ x. all (g x) ys) xs ≡ all (λ y. all (λ x. g x y) xs) ys
all_swap g [] ys = sym (holds_for_all ys)
all_swap g (x ∷ xs) ys =
    ap (λ b. all (g x) ys && b) (all_swap g xs ys)
    ∙ sym (all_and (g x) (λ y. all (λ z. g z y) xs) ys)

mem_mono :
    (t : Text) (ts : List Text) (ms : List MachineMail)
    → all (λ (m : MachineMail). mem m.tag ts) ms ≡ true
    → all (λ (m : MachineMail). mem m.tag (t ∷ ts)) ms ≡ true
mem_mono t ts [] h = refl
mem_mono t ts (m ∷ ms) h = ground (arith, mem_mono t ts ms)

members :
    (rest : List Text) (ms : List MachineMail)
    → all (λ (m : MachineMail). mem m.tag (map (λ (n : MachineMail). n.tag) ms ++ rest)) ms ≡ true
members rest [] = refl
members rest (m ∷ ms) = ground (
  arith,
  text_beq_iff m.tag m.tag,
  mem_mono m.tag (map (λ (n : MachineMail). n.tag) ms ++ rest) ms (members rest ms),
)

module _ (key : Readback → Text) (words : Words) (precursor : MachineMail)
    (judged : List MachineMail) (policy : TicketPolicy) (outcome : ReadbackOutcome)
    (apart : tags_apart words precursor judged ≡ true) (d : Dict Text (List Readback))
    (rs : List Readback) where
  abbrev tags : List Text
  tags = map (λ (m : MachineMail). m.tag) judged ++ precursor.tag ∷ []

  abbrev ids : Dict Text Text
  ids = insert precursor.message_id precursor.tag (ids_of [] judged)

  abbrev tied_to : Readback → Option Text
  tied_to r = attribute words tags ids r

  abbrev free : MachineMail → Readback → Bool
  free m r = not (is_tied (tied_to r) m.tag)

  abbrev unanswered : MachineMail → Bool
  unanswered m = is_empty (found_for d m.tag)

  mail_split :
      (ms : List MachineMail)
      → all (λ (m : MachineMail). mem m.tag tags) ms ≡ true
      → all
          (mail_fine outcome.readbacks
            (some (merge_outbound key words d rs tags ids).merged)
            policy
            (threaded_ids precursor outcome))
          ms
        ≡ (all (no_ticket policy precursor outcome.readbacks) ms
            && (all unanswered ms && all (λ m. all (free m) rs) ms))
  mail_split [] h = refl
  mail_split (m ∷ ms) h = ground (
    arith,
    h,
    mail_split ms,
    ticket_fine-no_ticket policy precursor outcome m,
    merged_none key words d rs tags ids m.tag,
  )

  free_split :
      (all (λ r. is_some (tied_to r)) rs && all (λ m. all (free m) rs) judged)
      ≡ all (of_precursor words precursor judged) rs
  free_split =
      ap (λ b. all (λ r. is_some (tied_to r)) rs && b) (all_swap free judged rs)
      ∙ sym (all_and (λ r. is_some (tied_to r)) (λ r. all (λ m. free m r) judged) rs)
      ∙ all_eq (λ r. not_judged words precursor judged (tied_to r))
          (of_precursor words precursor judged)
          (attribute-of_precursor words precursor judged apart) rs

  -- Nothing is left over and every message is fine, in terms of the records.
  pub silent :
      (is_empty (merge_outbound key words d rs tags ids).unattributed
        && all
            (mail_fine outcome.readbacks
              (some (merge_outbound key words d rs tags ids).merged)
              policy
              (threaded_ids precursor outcome))
            judged)
      ≡ (all (no_ticket policy precursor outcome.readbacks) judged
          && (all unanswered judged && all (of_precursor words precursor judged) rs))
  silent = ground (
    arith,
    left_none key words d rs tags ids,
    mail_split judged (members (precursor.tag ∷ []) judged),
    free_split,
  )
