-- ===== src/Pipeline/Steady/Measured.antt =====
-- What it means that a family is consistent and that a run is stable.
use testing_hq.Prelude.{
  ℕ, ◌+◌, ◌≤◌, ◌≡◌, ◌↔◌, refl, ap, sym, ◌∙◌, true, false, not, ◌&&◌, Option, none, some, List, [],
  ◌∷◌, arith, map, length, keep_if, is_empty, nat_beq, ◌==◌, Bool, all, any, is_some, count_if,
}
use testing_hq.Prelude.Text.{Text, text_eq, text_beq_iff}
use testing_hq.Prelude.Dict.{Dict, insert}
use testing_hq.Pipeline.Steady.{
  count_of, known, majority_label, majority_in, counts_from, Variant, Family, labels_of, dissents,
  judge_family, consistent, one_if, flipped_pairs, sum_by, stability, stable, verdict_for,
}
use testing_hq.Pipeline.Steady.Pairs.{other_than, differing_pairs, flipped_pairs_differ}
use testing_hq.Pipeline.Steady.Majority.{times, majority_most}

-- The labels of a list that are not `m`.
abbrev others : Text → List Text → ℕ
others m [] = 0
others m (l ∷ ls) = one_if (not (l == m)) + others m ls

times_and_others : (m : Text) (ls : List Text) → times m ls + others m ls ≡ length ls
times_and_others m [] = refl
times_and_others m (l ∷ ls) = ground (arith, times_and_others m ls)

others_swap : (m : Text) (ls : List Text) → others m ls ≡ other_than m ls
others_swap m [] = refl
others_swap m (l ∷ ls) = ground (arith, text_beq_iff l m, text_beq_iff m l, others_swap m ls)

others_same : (m l : Text) (ls : List Text) → l ≡ m → other_than l ls ≡ others m ls
others_same m l ls e = ap (λ k. other_than k ls) e ∙ sym (others_swap m ls)

-- Where every label is `m`, no two differ.
none_differ : (m : Text) (ls : List Text) → others m ls ≡ 0 → differing_pairs ls ≡ 0
none_differ m [] h = refl
none_differ m (l ∷ ls) h = ground (arith, text_beq_iff l m, others_same m l ls, none_differ m ls)

-- Where no two labels differ, every label is the majority's.
all_majority :
    (m : Text) (ls : List Text)
    → ((x : Text) → times x ls ≤ times m ls)
    → differing_pairs ls ≡ 0
    → others m ls ≡ 0
all_majority m [] most h = refl
all_majority m (l ∷ ls) most h = ground (
  arith,
  most l,
  times_and_others m (l ∷ ls),
  times_and_others l ls,
  others_swap l ls,
  text_beq_iff l l,
)

-- The dissenters are the known labels that are not the majority's.
dissenters-length :
    (m : Text) (vs : List Variant)
    → length (keep_if (λ (v : Variant). dissents (some m) v.label) vs)
      ≡ others m (known (map (λ (v : Variant). v.label) vs))
unfolding known
dissenters-length m [] = refl
dissenters-length m (v ∷ vs) = ground (arith, dissenters-length m vs)

dissenters_all :
    (vs : List Variant)
    → length (keep_if (λ (v : Variant). dissents none v.label) vs)
      ≡ length (known (map (λ (v : Variant). v.label) vs))
unfolding known
dissenters_all [] = refl
dissenters_all (v ∷ vs) = ground (arith, dissenters_all vs)

is_empty-insert : (l : Text) (n : ℕ) (d : Dict Text ℕ) → is_empty (insert l n d) ≡ false
unfolding insert
is_empty-insert l n [] = refl
is_empty-insert l n ((k, c) ∷ d) = ground arith

is_empty-counts_from :
    (d : Dict Text ℕ) (ls : List Text) → is_empty (counts_from d ls) ≡ (is_empty d && is_empty ls)
unfolding counts_from
is_empty-counts_from d [] = ground arith
is_empty-counts_from d (l ∷ ls) = ground (
  arith,
  is_empty-counts_from (insert l (count_of l d + 1) d) ls,
  is_empty-insert l (count_of l d + 1) d,
)

majority_none : (labels : List (Option Text)) → majority_label labels ≡ none → known labels ≡ []
unfolding majority_label majority_in
majority_none labels e = ground (arith, is_empty-counts_from [] (known labels))

is_empty_iff : {A : Type 0} (xs : List A) → (is_empty xs ≡ true) ↔ (length xs ≡ 0)
is_empty_iff xs = ground arith

no_dissent_iff :
    (vs : List Variant) (majority : Option Text)
    → majority_label (map (λ (v : Variant). v.label) vs) ≡ majority
    → (is_empty (keep_if (λ (v : Variant). dissents majority v.label) vs) ≡ true)
      ↔ (flipped_pairs (map (λ (v : Variant). v.label) vs) ≡ 0)
no_dissent_iff vs none e =
    let labels = map (λ (v : Variant). v.label) vs in
    let empty = majority_none labels e in
    let counted = ap length empty in
    let apart = ap differing_pairs empty in
    let left = keep_if (λ (v : Variant). dissents none v.label) vs in
    (
      (λ h. flipped_pairs_differ labels ∙ apart),
      (λ h. (is_empty_iff left).1 (dissenters_all vs ∙ counted)),
    )
no_dissent_iff vs (some m) e =
    let labels = map (λ (v : Variant). v.label) vs in
    let left = keep_if (λ (v : Variant). dissents (some m) v.label) vs in
    (
      (λ h.
          flipped_pairs_differ labels
          ∙ none_differ m (known labels) (sym (dissenters-length m vs) ∙ (is_empty_iff left).0 h)),
      (λ h. (is_empty_iff left).1 (
          dissenters-length m vs
          ∙ all_majority m (known labels) (λ x. majority_most labels m x e)
              (sym (flipped_pairs_differ labels) ∙ h))),
    )

-- A family is consistent if and only if no two of its labelled variants have different labels.
pub family_consistent_iff :
    (f : Family) → (consistent (judge_family f) ≡ true) ↔ ((judge_family f).flips ≡ 0)
unfolding judge_family
family_consistent_iff f = no_dissent_iff f.variants (majority_label (labels_of f)) refl

dissent_or_flip :
    (fs : List Family)
    → (sum_by (λ r. length r.dissenters) (map judge_family fs) ≡ 0)
      ↔ (sum_by (λ r. r.flips) (map judge_family fs) ≡ 0)
unfolding sum_by
dissent_or_flip [] = ground arith
dissent_or_flip (f ∷ fs) =
    ground
      (arith, family_consistent_iff f, is_empty_iff (judge_family f).dissenters, dissent_or_flip fs)

-- Whether a label was read of a variant.
abbrev pub has_label : Variant → Bool
has_label v = is_some v.label

-- Whether two variants have the same label, or one of them has none.
abbrev pub no_flip : Variant → Variant → Bool
no_flip v u = elim v.label [ none ↦ true | some l ↦ elim u.label [ none ↦ true | some m ↦ l == m ] ]

-- Whether every variant agrees with every later one.
abbrev pub one_label : List Variant → Bool
one_label [] = true
one_label (v ∷ vs) = all (no_flip v) vs && one_label vs

none_other :
    (v : Variant) (l : Text) (vs : List Variant)
    → v.label ≡ some l
    → nat_beq (other_than l (known (map (λ (u : Variant). u.label) vs))) 0 ≡ all (no_flip v) vs
unfolding known
none_other v l [] e = refl
none_other v l (u ∷ vs) e = ground (arith, e, none_other v l vs e)

flip_with_none : (v : Variant) (vs : List Variant) → v.label ≡ none → all (no_flip v) vs ≡ true
flip_with_none v [] e = refl
flip_with_none v (u ∷ vs) e = ground (arith, e, flip_with_none v vs e)

flip_pair :
    (v : Variant) (o : Option Text) (vs : List Variant)
    → v.label ≡ o
    → nat_beq (differing_pairs (known (map (λ (u : Variant). u.label) vs))) 0 ≡ one_label vs
    → nat_beq (differing_pairs (known (map (λ (u : Variant). u.label) (v ∷ vs)))) 0
      ≡ one_label (v ∷ vs)
unfolding known
flip_pair v none vs e h = ground (arith, e, h, flip_with_none v vs e)
flip_pair v (some l) vs e h = ground (arith, e, h, none_other v l vs e)

no_flip_pairs :
    (vs : List Variant)
    → nat_beq (differing_pairs (known (map (λ (u : Variant). u.label) vs))) 0 ≡ one_label vs
unfolding known
no_flip_pairs [] = refl
no_flip_pairs (v ∷ vs) = flip_pair v v.label vs refl (no_flip_pairs vs)

no_label_read :
    (vs : List Variant)
    → nat_beq (count_if is_some (map (λ (u : Variant). u.label) vs)) 0 ≡ not (any has_label vs)
no_label_read [] = refl
no_label_read (v ∷ vs) = ground (arith, no_label_read vs)

none_read :
    (fs : List Family)
    → nat_beq (sum_by (λ r. r.labelled) (map judge_family fs)) 0
      ≡ not (any (λ (f : Family). any has_label f.variants) fs)
unfolding sum_by judge_family
none_read [] = refl
none_read (f ∷ fs) = ground (arith, no_label_read f.variants, none_read fs)

none_flipped :
    (fs : List Family)
    → nat_beq (sum_by (λ r. r.flips) (map judge_family fs)) 0
      ≡ all (λ (f : Family). one_label f.variants) fs
unfolding sum_by judge_family
none_flipped [] = refl
none_flipped (f ∷ fs) =
    ground (arith, no_flip_pairs f.variants, flipped_pairs_differ (labels_of f), none_flipped fs)

-- The verdict is STABLE if and only if some variant has a label and no two variants of one family
-- have different labels.
pub stable_iff :
    (fs : List Family)
    → (verdict_for (stability fs) ≡ stable) ↔ (
        (any (λ (f : Family). any has_label f.variants) fs ≡ true)
        × (all (λ (f : Family). one_label f.variants) fs ≡ true))
unfolding verdict_for stability
stable_iff fs = ground (arith, dissent_or_flip fs, none_read fs, none_flipped fs)
