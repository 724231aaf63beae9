-- ===== src/Core/Report/Examples.antt =====
-- The grading of small runs, and the theorems at them.
use testing_hq.Prelude.{ℕ, ◌≡◌, ◌↔◌, Bool, true, false, not, Option, none, some, List, [], ◌∷◌, all}
use testing_hq.Prelude.Text.{Text, codes}
use testing_hq.Core.Report.{Record}
use testing_hq.Core.Report.Kinds.{
  Category, clean, degenerate, structurally_malformed, status_class_eq, error_kind_eq,
}
use testing_hq.Core.Report.Summary.{compute_summary, verdict, clean_run}
use testing_hq.Core.Report.Summary.Flagged.{has_flag, verdict_clean_iff}

abbrev answered : Category → Option ℕ → Record
answered c s = record {
  id = some (codes "p");
  category = c;
  response = some (record {
    status = s;
    error_kind = none;
    error = some (codes "connection refused");
    body_failure = false;
  });
  assertion_passed = none;
}

abbrev records : List Record
records =
    answered clean (some 200)
    ∷ answered structurally_malformed (some 422)
    ∷ answered degenerate none
    ∷ []

same : Text → Text
same t = t

verdict_clean_iff_example :
    (verdict false (compute_summary same records) ≡ clean_run)
    ↔ ((◌≡◌ {A = Bool} false false) × (all (λ r. not (has_flag r)) records ≡ true))
verdict_clean_iff_example = verdict_clean_iff same false records
