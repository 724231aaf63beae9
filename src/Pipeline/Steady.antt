-- ===== src/Pipeline/Steady.antt =====
-- testinghq/pipeline/steady.py: whether a classifier gives one label to the variants of a message.
-- Payloads are left out, and a rate is kept as its numerator and denominator: `a / b <= c / d` is
-- `a * d <= c * b`.
pub mod Pairs
mod Majority
mod Measured
mod Split
mod Examples
use testing_hq.Prelude.{
  ℕ, zero, suc, ◌+◌, ◌-◌, ◌*◌, ◌/◌, Bool, true, false, not, ◌&&◌, ◌||◌, Option, none, some, List,
  [], ◌∷◌, ◌++◌, map, length, count_if, keep_if, any, all, leb, ltb, nat_beq, is_some, is_empty,
  if◌then◌else◌, ◌==◌,
}
use testing_hq.Prelude.Text.{Text, text_eq, codes}
use testing_hq.Prelude.TextOrder.{text_leb}
use testing_hq.Prelude.Dict.{Dict, lookup, insert}

unfoldable pub total_pairs : ℕ → ℕ
total_pairs n = n * (n - 1) / 2

-- [label for label in labels if label is not None]
unfoldable pub known : List (Option Text) → List Text
known [] = []
known (none ∷ ls) = known ls
known (some l ∷ ls) = l ∷ known ls

-- counts.get(label, 0)
unfoldable pub count_of : Text → Dict Text ℕ → ℕ
count_of l d = elim (lookup l d) [ none ↦ 0 | some n ↦ n ]

-- The loop of `_counts`, from the counts so far.
unfoldable pub counts_from : Dict Text ℕ → List Text → Dict Text ℕ
unfolding count_of
counts_from d [] = d
counts_from d (l ∷ ls) = counts_from (insert l (count_of l d + 1) d) ls

-- sum(total_pairs(c) for c in counts.values())
unfoldable pub pairs_in : Dict Text ℕ → ℕ
unfolding total_pairs
pairs_in [] = 0
pairs_in ((l, c) ∷ d) = total_pairs c + pairs_in d

unfoldable pub flipped_pairs : List (Option Text) → ℕ
unfolding known counts_from pairs_in
flipped_pairs labels =
    let ls = known labels in
    if ltb (length ls) 2 then 0 else total_pairs (length ls) - pairs_in (counts_from [] ls)

-- Whether (label, count) comes before another by the key (-count, label).
abbrev pub before : Text × ℕ → Text × ℕ → Bool
before p q = if ltb q.1 p.1 then true else nat_beq q.1 p.1 && text_leb p.0 q.0

-- The first of the smallest entries.
unfoldable pub smallest : Text × ℕ → Dict Text ℕ → Text × ℕ
smallest p [] = p
smallest p (q ∷ d) = smallest (if before p q then p else q) d

unfoldable pub majority_in : Dict Text ℕ → Option Text
unfolding smallest
majority_in [] = none
majority_in (p ∷ d) = some (smallest p d).0

unfoldable pub majority_label : List (Option Text) → Option Text
unfolding known counts_from majority_in
majority_label labels = majority_in (counts_from [] (known labels))

-- How a label was read.
pub data ReadState : Type 0 where
  labelled_read null_read not_visible_read no_record_read not_sent : ReadState

pub record Variant : Type 0 where
  pub language : Text
  pub transform : Text
  pub label : Option Text
  pub read_state : ReadState

pub record Family : Type 0 where
  pub intent_id : Text
  pub variants : List Variant

abbrev pub labels_of : Family → List (Option Text)
labels_of f = map (λ (v : Variant). v.label) f.variants

abbrev pub same_label : Option Text → Option Text → Bool
same_label none none = true
same_label none (some m) = false
same_label (some l) none = false
same_label (some l) (some m) = l == m

-- A variant with a label that is not the majority's.
abbrev pub dissents : Option Text → Option Text → Bool
dissents majority none = false
dissents majority (some l) = not (same_label (some l) majority)

pub record FamilyResult : Type 0 where
  pub intent_id : Text
  pub variants : ℕ
  pub labelled : ℕ
  pub majority : Option Text
  pub dissenters : List Variant
  pub pairs : ℕ
  pub flips : ℕ

unfoldable pub judge_family : Family → FamilyResult
unfolding majority_label flipped_pairs total_pairs
judge_family f =
    let labels = labels_of f in
    let majority = majority_label labels in
    let labelled = count_if is_some labels in
    record {
      intent_id = f.intent_id;
      variants = length f.variants;
      labelled = labelled;
      majority = majority;
      dissenters = keep_if (λ (v : Variant). dissents majority v.label) f.variants;
      pairs = total_pairs labelled;
      flips = flipped_pairs labels;
    }

abbrev pub consistent : FamilyResult → Bool
consistent r = is_empty r.dissenters

abbrev pub fully_labelled : FamilyResult → Bool
fully_labelled r = nat_beq r.labelled r.variants

-- `(same-language pairs, their flips, cross-language pairs, their flips)`
pub record PairSplit : Type 0 where
  pub same : ℕ
  pub same_flips : ℕ
  pub cross : ℕ
  pub cross_flips : ℕ

abbrev pub one_if : Bool → ℕ
one_if b = if b then 1 else 0

-- A pair of labelled variants.
unfoldable pub add_pair : Variant → Variant → PairSplit → PairSplit
add_pair left right s =
    let flip = one_if (not (same_label left.label right.label)) in
    if left.language == right.language
    then record s { same = 1 + s.same; same_flips = flip + s.same_flips }
    else record s { cross = 1 + s.cross; cross_flips = flip + s.cross_flips }

-- The inner loop, over the variants to the right.
unfoldable pub pairs_with : Variant → List Variant → PairSplit → PairSplit
unfolding add_pair
pairs_with left [] s = s
pairs_with left (right ∷ vs) s = add_pair left right (pairs_with left vs s)

unfoldable pub split_pairs : List Variant → PairSplit
unfolding pairs_with
split_pairs [] = record { same = 0; same_flips = 0; cross = 0; cross_flips = 0 }
split_pairs (left ∷ vs) = pairs_with left vs (split_pairs vs)

abbrev pub has_label : Variant → Bool
has_label v = is_some v.label

unfoldable pub pair_split : Family → PairSplit
unfolding split_pairs
pair_split f = split_pairs (keep_if has_label f.variants)

unfoldable pub sum_by : (FamilyResult → ℕ) → List FamilyResult → ℕ
sum_by f [] = 0
sum_by f (r ∷ rs) = f r + sum_by f rs

-- The numbers of a `StabilityReport`.
pub record Stability : Type 0 where
  pub results : List FamilyResult
  pub labelled_variants : ℕ
  pub dissenters : ℕ
  pub pairs : ℕ
  pub flips : ℕ
  pub unlabelled_families : List FamilyResult

abbrev not_measured : FamilyResult → Bool
not_measured r = not (fully_labelled r)

unfoldable pub stability : List Family → Stability
unfolding judge_family sum_by
stability families =
    let results = map judge_family families in
    record {
      results = results;
      labelled_variants = sum_by (λ r. r.labelled) results;
      dissenters = sum_by (λ r. length r.dissenters) results;
      pairs = sum_by (λ r. r.pairs) results;
      flips = sum_by (λ r. r.flips) results;
      unlabelled_families = keep_if not_measured results;
    }

pub data SteadyVerdict : Type 0 where
  nothing_measured stable mostly_stable unstable : SteadyVerdict

-- `verdict_for` without the warning about a constant label.
unfoldable pub verdict_for : Stability → SteadyVerdict
verdict_for s =
    if nat_beq s.labelled_variants 0
    then nothing_measured
    else if nat_beq s.dissenters 0
    then stable
    else if leb (s.dissenters * 20) s.labelled_variants
    then mostly_stable
    else unstable

-- A threshold, as a fraction.
pub record Rate : Type 0 where
  pub over : ℕ
  pub under : ℕ

abbrev pub above : ℕ → ℕ → Rate → Bool
above n d rate = ltb (rate.over * d) (n * rate.under)

pub data GateReason : Type 0 where
  within nothing_to_gate not_all_labelled dissent_above flips_above : GateReason

-- Whether the run exits with 3: every reason but `within`.
unfoldable pub gate : Stability → Rate → Option Rate → GateReason
gate s max_dissent max_flips =
    let flips_over : Bool = elim max_flips [
      | none ↦ false
      | some m ↦ not (nat_beq s.pairs 0) && above s.flips s.pairs m
    ] in
    if nat_beq s.labelled_variants 0
    then nothing_to_gate
    else if not (is_empty s.unlabelled_families)
    then not_all_labelled
    else if above s.dissenters s.labelled_variants max_dissent
    then dissent_above
    else if flips_over
    then flips_above
    else within
