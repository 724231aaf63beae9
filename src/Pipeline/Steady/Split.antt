-- ===== src/Pipeline/Steady/Split.antt =====
-- The pairs within a language and across languages add up.
use testing_hq.Prelude.{
  Option-cases, inl, inr, ◌+◌, ◌≡◌, refl, ap, sym, ◌∙◌, true, some, List, [], ◌∷◌, arith, map,
  length, count_if, keep_if, all, is_some,
}
use testing_hq.Prelude.Text.{Text, text_eq}
use testing_hq.Pipeline.Steady.{
  known, Variant, Family, labels_of, judge_family, total_pairs, PairSplit, add_pair, pairs_with,
  split_pairs, has_label, pair_split,
}
use testing_hq.Pipeline.Steady.Pairs.{
  other_than, differing_pairs, flipped_pairs_differ, total_pairs-suc,
}

abbrev label_list : List Variant → List Text
label_list vs = known (map (λ (v : Variant). v.label) vs)

pairs_with-pairs :
    (left : Variant) (vs : List Variant) (s : PairSplit)
    → (pairs_with left vs s).same + (pairs_with left vs s).cross ≡ s.same + s.cross + length vs
unfolding pairs_with add_pair
pairs_with-pairs left [] s = omega arith
pairs_with-pairs left (right ∷ vs) s = ground (arith, pairs_with-pairs left vs s)

pairs_with-flips :
    (left : Variant) (l : Text) (vs : List Variant) (s : PairSplit)
    → left.label ≡ some l
    → all has_label vs ≡ true
    → (pairs_with left vs s).same_flips + (pairs_with left vs s).cross_flips
      ≡ s.same_flips + s.cross_flips + other_than l (label_list vs)
unfolding pairs_with add_pair known
pairs_with-flips left l [] s e h = omega arith
pairs_with-flips left l (right ∷ vs) s e h = ground (arith, pairs_with-flips left l vs s e)

split_pairs-pairs :
    (vs : List Variant) → (split_pairs vs).same + (split_pairs vs).cross ≡ total_pairs (length vs)
unfolding split_pairs total_pairs
split_pairs-pairs [] = refl
split_pairs-pairs (v ∷ vs) = omega (
  arith,
  pairs_with-pairs v vs (split_pairs vs),
  split_pairs-pairs vs,
  total_pairs-suc (length vs),
)

split_pairs-flips :
    (vs : List Variant)
    → all has_label vs ≡ true
    → (split_pairs vs).same_flips + (split_pairs vs).cross_flips ≡ differing_pairs (label_list vs)
unfolding split_pairs known
split_pairs-flips [] h = refl
split_pairs-flips (v ∷ vs) h = elim (Option-cases v.label) [
  | inl e ↦ ground (arith, e)
  | inr (l, e) ↦ ground (arith, e, pairs_with-flips v l vs (split_pairs vs) e, split_pairs-flips vs)
]

labelled_all : (vs : List Variant) → all has_label (keep_if has_label vs) ≡ true
labelled_all [] = refl
labelled_all (v ∷ vs) = ground (arith, labelled_all vs)

label_list-labelled : (vs : List Variant) → label_list (keep_if has_label vs) ≡ label_list vs
unfolding known
label_list-labelled [] = refl
label_list-labelled (v ∷ vs) = ground (arith, label_list-labelled vs)

labelled-count :
    (vs : List Variant)
    → length (keep_if has_label vs) ≡ count_if is_some (map (λ (v : Variant). v.label) vs)
labelled-count [] = refl
labelled-count (v ∷ vs) = ground (arith, labelled-count vs)

-- The pairs of labelled variants within a language and across languages are the pairs of the
-- family, and their flips are its flips.
pub pair_split_adds_up :
    (f : Family)
    → ((pair_split f).same + (pair_split f).cross ≡ (judge_family f).pairs)
      × ((pair_split f).same_flips + (pair_split f).cross_flips ≡ (judge_family f).flips)
unfolding pair_split judge_family
pair_split_adds_up f = (
  split_pairs-pairs (keep_if has_label f.variants) ∙ ap total_pairs (labelled-count f.variants),
  split_pairs-flips (keep_if has_label f.variants) (labelled_all f.variants)
      ∙ ap differing_pairs (label_list-labelled f.variants)
      ∙ sym (flipped_pairs_differ (labels_of f)),
)
