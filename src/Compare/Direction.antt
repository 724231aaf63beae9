-- ===== src/Compare/Direction.antt =====
-- What a comparison counts, by the direction in which each shared record moved.
use testing_hq.Prelude.{
  ℕ, ◌+◌, ◌≡◌, refl, ap, ◌∙◌, sym, Bool, true, false, not, ◌&&◌, Option, none, some, List, [], ◌∷◌,
  arith, length, length-append, count_if, count_if_ext, count_if-keep_if, is_some,
}
use testing_hq.Prelude.Text.{Text}
use testing_hq.Prelude.Dict.{Dict, keys, lookup, contains, contains-eq-is_some}
use testing_hq.Prelude.Distinct.{Distinct, mem, contains-eq-mem, count_common}
use testing_hq.Core.Report.{Record, Outcome, classify_record, outcome_beq, outcome_beq_iff, ok}
use testing_hq.Core.Report.Flags.{flag_for_record}
use testing_hq.Compare.Align.{Key, key_eq}
use testing_hq.Compare.Loop.{
  Tally, entry_for, shared_keys, compare_pair, compare_found, compare_keys,
}

-- The four directions, described by the outcomes alone.
abbrev pub regresses : Outcome → Outcome → Bool
regresses before after = outcome_beq before ok && not (outcome_beq after ok)

abbrev pub improves : Outcome → Outcome → Bool
improves before after = not (outcome_beq before ok) && outcome_beq after ok

abbrev pub stays : Outcome → Outcome → Bool
stays before after = outcome_beq before after

abbrev pub shifts : Outcome → Outcome → Bool
shifts before after =
    not (outcome_beq before ok) && (not (outcome_beq after ok) && not (outcome_beq before after))

-- How the record of a key moved between two dicts.
abbrev pub moved : (Outcome → Outcome → Bool) → Option Record → Option Record → Bool
moved p (some base) (some cand) = p (classify_record base) (classify_record cand)
moved p _ _ = false

abbrev pub moved_at : (Outcome → Outcome → Bool) → Dict Key Record → Dict Key Record → Key → Bool
moved_at p a b k = moved p (lookup k a) (lookup k b)

pub record Sizes : Type 0 where
  pub regressions : ℕ
  pub fixes : ℕ
  pub changes : ℕ
  pub unchanged : ℕ

abbrev pub sizes : Tally → Sizes
sizes t = record {
  regressions = length t.regressions;
  fixes = length t.fixes;
  changes = length t.changes;
  unchanged = t.unchanged;
}

abbrev add_if : Bool → ℕ → ℕ
add_if true n = n + 1
add_if false n = n

module _ (lower : Text → Text) where
  pair_sizes :
      (k : Key) (base cand : Record) (t : Tally)
      → let before = classify_record base in
        let after = classify_record cand in
        sizes (compare_pair lower k base cand t) ≡ record {
          regressions = add_if (regresses before after) (length t.regressions);
          fixes = add_if (improves before after) (length t.fixes);
          changes = add_if (shifts before after) (length t.changes);
          unchanged = add_if (stays before after) t.unchanged;
        }
  unfolding compare_pair
  pair_sizes k base cand t =
      let before = classify_record base in
      let after = classify_record cand in
      ground (
        arith,
        outcome_beq_iff before after,
        outcome_beq_iff before ok,
        outcome_beq_iff after ok,
        length-append t.regressions (entry_for k base cand (flag_for_record lower cand) ∷ []),
        length-append t.fixes (entry_for k base cand (flag_for_record lower base) ∷ []),
        length-append t.changes (entry_for k base cand none ∷ []),
      )

  found_sizes :
      (k : Key) (base cand : Option Record) (t : Tally)
      → sizes (compare_found lower k base cand t) ≡ record {
        regressions = add_if (moved regresses base cand) (length t.regressions);
        fixes = add_if (moved improves base cand) (length t.fixes);
        changes = add_if (moved shifts base cand) (length t.changes);
        unchanged = add_if (moved stays base cand) t.unchanged;
      }
  unfolding compare_found
  found_sizes k (some base) (some cand) t = pair_sizes k base cand t
  found_sizes k (some base) none t = refl
  found_sizes k none cand t = refl

  pub keys_sizes :
      (a b : Dict Key Record) (ks : List Key) (t : Tally)
      → sizes (compare_keys lower a b ks t) ≡ record {
        regressions = length t.regressions + count_if (moved_at regresses a b) ks;
        fixes = length t.fixes + count_if (moved_at improves a b) ks;
        changes = length t.changes + count_if (moved_at shifts a b) ks;
        unchanged = t.unchanged + count_if (moved_at stays a b) ks;
      }
  unfolding compare_keys
  keys_sizes a b [] t = ground arith
  keys_sizes a b (k ∷ ks) t = ground (
    arith,
    found_sizes k (lookup k a) (lookup k b) t,
    keys_sizes a b ks (compare_found lower k (lookup k a) (lookup k b) t),
  )

-- Only keys on both sides move.
moved_at_right :
    (p : Outcome → Outcome → Bool) (a b : Dict Key Record) (k : Key)
    → moved_at p a b k ≡ (mem k (keys b) && moved_at p a b k)
moved_at_right p a b k =
    rw (sym (contains-eq-mem k b), contains-eq-is_some) (right (lookup k a) (lookup k b))
  where
    right : (x y : Option Record) → moved p x y ≡ (is_some y && moved p x y)
    right (some x) (some y) = refl
    right (some x) none = refl
    right none (some y) = refl
    right none none = refl

moved_at_swap :
    (p q : Outcome → Outcome → Bool) (a b : Dict Key Record) (k : Key)
    → ((x y : Outcome) → p x y ≡ q y x)
    → moved_at p a b k ≡ moved_at q b a k
moved_at_swap p q a b k h = swap (lookup k a) (lookup k b)
  where
    swap : (x y : Option Record) → moved p x y ≡ moved q y x
    swap (some x) (some y) = h (classify_record x) (classify_record y)
    swap (some x) none = refl
    swap none (some y) = refl
    swap none none = refl

-- The number of keys that moved one way from `a` to `b`.
abbrev pub number_moved : (Outcome → Outcome → Bool) → Dict Key Record → Dict Key Record → ℕ
number_moved p a b = count_if (moved_at p a b) (keys a)

pub shared_moved :
    (p : Outcome → Outcome → Bool) (a b : Dict Key Record)
    → count_if (moved_at p a b) (shared_keys a b) ≡ number_moved p a b
unfolding shared_keys
shared_moved p a b =
    count_if-keep_if (moved_at p a b) (λ k. contains k b) (keys a)
      (λ k. rw (contains-eq-mem k b) (moved_at_right p a b k))

pub number_moved_swap :
    (p q : Outcome → Outcome → Bool) (a b : Dict Key Record)
    → ((x y : Outcome) → p x y ≡ q y x)
    → Distinct (keys a)
    → Distinct (keys b)
    → number_moved p a b ≡ number_moved q b a
number_moved_swap p q a b h da db =
    count_if_ext _ _ (keys a) (moved_at_right p a b)
    ∙ count_common (moved_at p a b) (keys a) (keys b) da db
    ∙ count_if_ext _ _ (keys b) (λ k.
      ap (λ t. mem k (keys a) && t) (moved_at_swap p q a b k h) ∙ sym (moved_at_right q b a k))
