-- ===== src/Pipeline/Steady/Examples.antt =====
-- A family whose variants get two labels, and the theorems at it.
use testing_hq.Prelude.{
  ℕ, ◌+◌, ◌≤◌, ◌≡◌, ◌↔◌, refl, Bool, true, false, Option, none, some, List, [], ◌∷◌, any, all,
}
use testing_hq.Prelude.Text.{Text, codes}
use testing_hq.Pipeline.Steady.{
  flipped_pairs, majority_label, labelled_read, Variant, Family, labels_of, stability, stable,
  verdict_for,
}
use testing_hq.Pipeline.Steady.Measured.{has_label, one_label, stable_iff}

abbrev variant : Option Text → Text → Variant
variant label language = record {
  language = language;
  transform = codes "forward";
  label = label;
  read_state = labelled_read;
}

abbrev family : Family
family = record {
  intent_id = codes "refund";
  variants =
      variant (some (codes "billing")) (codes "en")
      ∷ variant (some (codes "sales")) (codes "de")
      ∷ variant none (codes "de")
      ∷ variant (some (codes "billing")) (codes "de")
      ∷ [];
}

two_flips : flipped_pairs (labels_of family) ≡ 2
unfolding flipped_pairs testing_hq.Prelude.Dict.insert testing_hq.Prelude.Dict.lookup
two_flips = refl

the_majority : majority_label (labels_of family) ≡ some (codes "billing")
unfolding majority_label testing_hq.Prelude.Dict.insert testing_hq.Prelude.Dict.lookup
the_majority = refl

stable_iff_example : (verdict_for (stability (family ∷ [])) ≡ stable) ↔ (
    (any (λ (f : Family). any has_label f.variants) (family ∷ []) ≡ true)
    × (all (λ (f : Family). one_label f.variants) (family ∷ []) ≡ true))
stable_iff_example = stable_iff (family ∷ [])
