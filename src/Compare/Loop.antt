-- ===== src/Compare/Loop.antt =====
-- `compare` of testinghq/compare/runs.py: the loop over the shared keys and the report.
use testing_hq.Prelude.{
  ℕ, ◌+◌, Bool, true, not, Option, none, some, List, [], ◌∷◌, ◌++◌, length, keep_if, is_empty, ltb,
  if◌then◌else◌,
}
use testing_hq.Prelude.Int.{ℤ}
use testing_hq.Prelude.Text.{Text, codes}
use testing_hq.Prelude.Decimal.{decimal}
use testing_hq.Prelude.Dict.{Dict, keys, lookup, contains}
use testing_hq.Core.Report.{Record, classify_record, status_class, status_of, outcome_beq, ok}
use testing_hq.Core.Report.Flags.{flag_for_record}
use testing_hq.Compare.Align.{Key, by_id, by_index, key_eq, Aligned, align}
use testing_hq.Compare.Diff.{
  Artifact, Warning, shapes_differ, aligned_by_position, warn_if, comparable, Row, totals, Entry,
  Section, section_of,
}

-- What the loop over the shared keys builds up.
pub record Tally : Type 0 where
  pub regressions : List Entry
  pub fixes : List Entry
  pub changes : List Entry
  pub unchanged : ℕ

abbrev key_text : Key → Text
key_text (by_id t) = t
key_text (by_index n) = decimal n

-- cand_record.get("id") or f"index {key[1]}"
abbrev entry_id : Option Text → Key → Text
entry_id none k = codes "index " ++ key_text k
entry_id (some []) k = codes "index " ++ key_text k
entry_id (some (c ∷ t)) k = c ∷ t

pub entry_for : Key → Record → Record → Option Text → Entry
entry_for k base cand flag = record {
  id = entry_id cand.id k;
  from = classify_record base;
  to = classify_record cand;
  status_from = status_class (status_of base);
  status_to = status_class (status_of cand);
  flag = flag;
}

-- `k in base_by_key` and `k in cand_by_key`
unfoldable pub only_in : Dict Key Record → Dict Key Record → List Key
only_in a b = keep_if (λ k. not (contains k b)) (keys a)

unfoldable pub shared_keys : Dict Key Record → Dict Key Record → List Key
shared_keys a b = keep_if (λ k. contains k b) (keys a)

module _ (lower : Text → Text) where
  -- The body of the loop, on the two records of one key.
  unfoldable pub compare_pair : Key → Record → Record → Tally → Tally
  unfolding entry_for
  compare_pair k base cand t =
      let before = classify_record base in
      let after = classify_record cand in
      if outcome_beq before after
      then record t { unchanged = t.unchanged + 1 }
      else if outcome_beq before ok
      then record t {
        regressions = t.regressions ++ entry_for k base cand (flag_for_record lower cand) ∷ [];
      }
      else if outcome_beq after ok
      then record t { fixes = t.fixes ++ entry_for k base cand (flag_for_record lower base) ∷ [] }
      else record t { changes = t.changes ++ entry_for k base cand none ∷ [] }

  -- A key without a record would be a KeyError; a shared key has both.
  unfoldable pub compare_found : Key → Option Record → Option Record → Tally → Tally
  compare_found k (some base) (some cand) t = compare_pair k base cand t
  compare_found k _ _ t = t

  unfoldable pub compare_keys : Dict Key Record → Dict Key Record → List Key → Tally → Tally
  compare_keys a b [] t = t
  compare_keys a b (k ∷ ks) t = compare_keys a b ks (compare_found k (lookup k a) (lookup k b) t)

pub record Report : Type 0 where
  pub comparable : Bool
  pub warnings : List Warning
  pub aligned_by_index : Bool
  pub baseline_seed : ℤ
  pub candidate_seed : ℤ
  pub records_compared : ℕ
  pub unchanged : ℕ
  pub regressions : Section
  pub fixes : Section
  pub changes : Section
  pub totals : List Row
  pub baseline_flags : ℕ
  pub candidate_flags : ℕ
  pub regressed : Bool

-- `CompareError` carries the sizes of the two sides and the warnings.
pub data Comparison : Type 0 where
  nothing_to_compare : ℕ → ℕ → List Warning → Comparison
  compared : Report → Comparison

abbrev pub empty_tally : Tally
empty_tally = record { regressions = []; fixes = []; changes = []; unchanged = 0 }

pub shape_warnings : ℕ → ℕ → List Warning
shape_warnings m n = warn_if (if ltb 0 m then true else ltb 0 n) (shapes_differ m n)

unfoldable pub report_of : Artifact → Artifact → List Warning → Bool → List Key → Tally → Report
report_of a b warnings used_positional shared t = record {
  comparable = is_empty warnings;
  warnings = warnings;
  aligned_by_index = used_positional;
  baseline_seed = a.seed;
  candidate_seed = b.seed;
  records_compared = length shared;
  unchanged = t.unchanged;
  regressions = section_of t.regressions;
  fixes = section_of t.fixes;
  changes = section_of t.changes;
  totals = totals a.summary b.summary;
  baseline_flags = length a.summary.flags;
  candidate_flags = length b.summary.flags;
  regressed = ltb 0 (length t.regressions);
}

module _ (lower : Text → Text) where
  unfoldable pub compare_aligned : Artifact → Artifact → Aligned → Aligned → Comparison
  unfolding report_of shape_warnings only_in shared_keys compare_keys compare_found
  compare_aligned a b base cand =
      let warnings = comparable a b in
      let used_positional = (if base.positional then true else cand.positional) in
      let shared = shared_keys base.keyed cand.keyed in
      if is_empty shared
      then nothing_to_compare (length base.keyed) (length cand.keyed) warnings
      else compared (
          report_of a b
            (warnings
              ++ (shape_warnings (length (only_in base.keyed cand.keyed))
                    (length (only_in cand.keyed base.keyed))
                  ++ warn_if used_positional aligned_by_position))
            used_positional shared (compare_keys lower base.keyed cand.keyed shared empty_tally))

  unfoldable pub compare : Artifact → Artifact → Comparison
  unfolding compare_aligned align
  compare a b = compare_aligned a b (align a.records) (align b.records)
