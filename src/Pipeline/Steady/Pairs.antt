-- ===== src/Pipeline/Steady/Pairs.antt =====
-- The pairs of labels that differ, against a count of them one by one.
use testing_hq.Prelude.{
  ℕ, zero, suc, ◌+◌, ◌-◌, ◌*◌, ◌/◌, ◌≡◌, refl, ap, sym, ◌∙◌, true, not, Option, List, [], ◌∷◌,
  arith, length, ltb, ◌==◌,
}
use testing_hq.Prelude.Text.{Text, text_eq, text_beq_iff}
use testing_hq.Prelude.Dict.{Dict, lookup, insert, lookup-insert}
use testing_hq.Pipeline.Steady.{
  total_pairs, known, count_of, counts_from, pairs_in, flipped_pairs, one_if,
}

halves : (m : ℕ) → suc (suc m) * suc m / 2 ≡ suc m * m / 2 + suc m
halves m = omega arith

one_less : (n : ℕ) → suc n - 1 ≡ n
one_less n = omega arith

pub total_pairs-suc : (n : ℕ) → total_pairs (suc n) ≡ total_pairs n + n
unfolding total_pairs
total_pairs-suc zero = refl
total_pairs-suc (suc n) =
    ap (λ k. suc (suc n) * k / 2) (one_less (suc n))
    ∙ halves n
    ∙ ap (λ k. suc n * k / 2 + suc n) (sym (one_less n))

total_pairs_next : (n : ℕ) → total_pairs (n + 1) ≡ total_pairs n + n
total_pairs_next n =
    let next : n + 1 ≡ suc n = omega arith in ap total_pairs next ∙ total_pairs-suc n

-- The texts of a list that are, and that are not, `l`.
abbrev equal_to : Text → List Text → ℕ
equal_to l [] = 0
equal_to l (m ∷ ms) = one_if (l == m) + equal_to l ms

abbrev pub other_than : Text → List Text → ℕ
other_than l [] = 0
other_than l (m ∷ ms) = one_if (not (l == m)) + other_than l ms

-- The pairs of equal, and of different labels, one by one.
abbrev equal_pairs : List Text → ℕ
equal_pairs [] = 0
equal_pairs (l ∷ ls) = equal_to l ls + equal_pairs ls

abbrev pub differing_pairs : List Text → ℕ
differing_pairs [] = 0
differing_pairs (l ∷ ls) = other_than l ls + differing_pairs ls

equal_or_other : (l : Text) (ms : List Text) → equal_to l ms + other_than l ms ≡ length ms
equal_or_other l [] = refl
equal_or_other l (m ∷ ms) = ground (arith, equal_or_other l ms)

all_pairs : (ls : List Text) → equal_pairs ls + differing_pairs ls ≡ total_pairs (length ls)
unfolding total_pairs
all_pairs [] = refl
all_pairs (l ∷ ls) = omega (arith, all_pairs ls, equal_or_other l ls, total_pairs-suc (length ls))

-- One more of a label.
abbrev pub bump : Text → Dict Text ℕ → Dict Text ℕ
bump l d = insert l (count_of l d + 1) d

pub count_of-bump :
    (x l : Text) (d : Dict Text ℕ) → count_of x (bump l d) ≡ one_if (l == x) + count_of x d
unfolding count_of
count_of-bump x l d = ground (arith, lookup-insert l x (count_of l d + 1) d, text_beq_iff l x)

pairs_in-insert :
    (l : Text) (n : ℕ) (d : Dict Text ℕ)
    → pairs_in (insert l n d) + total_pairs (count_of l d) ≡ pairs_in d + total_pairs n
unfolding pairs_in count_of lookup insert
pairs_in-insert l n [] = omega (arith, total_pairs-suc 0)
pairs_in-insert l n ((k, c) ∷ d) = ground (arith, pairs_in-insert l n d)

pairs_in-bump : (l : Text) (d : Dict Text ℕ) → pairs_in (bump l d) ≡ pairs_in d + count_of l d
pairs_in-bump l d =
    omega (arith, pairs_in-insert l (count_of l d + 1) d, total_pairs_next (count_of l d))

-- How many pairs the labels of a list make with what was counted before.
abbrev with_counted : Dict Text ℕ → List Text → ℕ
with_counted d [] = 0
with_counted d (l ∷ ls) = count_of l d + with_counted d ls

with_counted-bump :
    (l : Text) (d : Dict Text ℕ) (ls : List Text)
    → with_counted (bump l d) ls ≡ equal_to l ls + with_counted d ls
with_counted-bump l d [] = refl
with_counted-bump l d (m ∷ ms) = omega (arith, count_of-bump m l d, with_counted-bump l d ms)

pairs_in-counts_from :
    (d : Dict Text ℕ) (ls : List Text)
    → pairs_in (counts_from d ls) ≡ pairs_in d + with_counted d ls + equal_pairs ls
unfolding counts_from
pairs_in-counts_from d [] = omega arith
pairs_in-counts_from d (l ∷ ls) =
    omega (arith, pairs_in-counts_from (bump l d) ls, pairs_in-bump l d, with_counted-bump l d ls)

with_counted_none : (ls : List Text) → with_counted [] ls ≡ 0
unfolding count_of lookup
with_counted_none [] = refl
with_counted_none (l ∷ ls) = omega (arith, with_counted_none ls)

few_differ : (ls : List Text) → ltb (length ls) 2 ≡ true → differing_pairs ls ≡ 0
few_differ [] h = refl
few_differ (l ∷ []) h = refl
few_differ (l ∷ m ∷ ls) h = ground arith

-- The flipped pairs are the pairs of known labels that differ.
pub flipped_pairs_differ :
    (labels : List (Option Text)) → flipped_pairs labels ≡ differing_pairs (known labels)
unfolding flipped_pairs pairs_in
flipped_pairs_differ labels = ground (
  arith,
  few_differ (known labels),
  all_pairs (known labels),
  pairs_in-counts_from [] (known labels),
  with_counted_none (known labels),
)
