-- ===== src/Core/Report/Summary.antt =====
-- `compute_summary`, `build_artifact`'s counts and `verdict` of testinghq/core/report.py.
pub mod Counts
pub mod Flagged
use testing_hq.Prelude.{
  ℕ, ◌+◌, Bool, true, false, Option, none, some, List, [], ◌∷◌, ◌++◌, map, Eq, if◌then◌else◌,
}
use testing_hq.Prelude.Text.{Text}
use testing_hq.Prelude.Dict.{Dict, lookup, contains, insert}
use testing_hq.Core.Report.{Response, Record, response_of, status_of, status_class, is_none}
use testing_hq.Core.Report.Kinds.{
  Category, categories, category_eq, StatusClass, status_classes, status_class_eq, ErrorKind,
  transport_error_kinds, error_kind_eq,
}
use testing_hq.Core.Report.Flags.{error_kind, flag_for_record}

abbrev or_zero : Option ℕ → ℕ
or_zero none = 0
or_zero (some n) = n

-- {k: 0 for k in ks}
zero_counts : {K : Type 0} → List K → Dict K ℕ
zero_counts [] = []
zero_counts (k ∷ ks) = (k, 0) ∷ zero_counts ks

module _ {K : Type 0} ⦃e : Eq K⦄ where
  -- d[k] += 1
  pub bump : K → Dict K ℕ → Dict K ℕ
  bump k d = insert k (or_zero (lookup k d) + 1) d

pub record Summary : Type 0 where
  pub by_status_class : Dict StatusClass ℕ
  pub by_category : Dict Category ℕ
  pub transport_errors : Dict ErrorKind ℕ
  pub flags : List Text

-- if flag: flags.append(flag)
append_flag : Option Text → List Text → List Text
append_flag none flags = flags
append_flag (some []) flags = flags
append_flag (some (c ∷ t)) flags = flags ++ (c ∷ t) ∷ []

pub empty_summary : Summary
unfolding zero_counts
empty_summary = record {
  by_status_class = zero_counts status_classes;
  by_category = zero_counts categories;
  transport_errors = zero_counts transport_error_kinds;
  flags = [];
}

module _ (lower : Text → Text) where
  -- The body of the loop over the records.
  pub count_record : Summary → Record → Summary
  unfolding bump append_flag
  count_record s r = record {
    by_status_class = bump (status_class (status_of r)) s.by_status_class;
    by_category =
        (if contains r.category s.by_category
          then bump r.category s.by_category
          else s.by_category);
    transport_errors =
        (if is_none (status_of r)
          then bump (error_kind lower (response_of r)) s.transport_errors
          else s.transport_errors);
    flags = append_flag (flag_for_record lower r) s.flags;
  }

  pub count_records : Summary → List Record → Summary
  unfolding count_record
  count_records s [] = s
  count_records s (r ∷ rs) = count_records (count_record s r) rs

  pub compute_summary : List Record → Summary
  unfolding count_records empty_summary
  compute_summary records = count_records empty_summary records

-- `verdict` of an artifact: its `aborted` flag and its summary's flags.
pub data Verdict : Type 0 where
  aborted flagged clean_run : Verdict

pub verdict : Bool → Summary → Verdict
verdict is_aborted s =
    if is_aborted then aborted else elim s.flags [ [] ↦ clean_run | f ∷ fs ↦ flagged ]
