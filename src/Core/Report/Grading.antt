-- ===== src/Core/Report/Grading.antt =====
-- What the grading of a record says, against an independent description of the rules at the top
-- of testinghq/core/report.py.
use testing_hq.Prelude.{
  ℕ, ◌≤◌, ◌<◌, ◌≡◌, ◌≢◌, ◌↔◌, ◌⊎◌, Bool, true, false, Option, none, some, arith,
}
use testing_hq.Core.Report.{Record, response_of, status_of, classify_record, is_flagged}
use testing_hq.Core.Report.Kinds.{Category, clean}

abbrev pub InRange : ℕ → ℕ → Option ℕ → Type 0
InRange lo hi none = ⊥
InRange lo hi (some s) = (lo ≤ s) × (s < hi)

-- The rules: what must be flagged.
abbrev pub Broken : Category → Option ℕ → Bool → Type 0
Broken c status failure_body =
    ((c ≡ clean) × (¬ InRange 200 300 status))
    ⊎ (status ≡ none)
    ⊎ InRange 500 600 status
    ⊎ (InRange 200 300 status × (failure_body ≡ true))

-- A record is flagged exactly when it is a clean payload without a 2xx, or got no response, or a
-- 5xx, or a 2xx whose body reports failure. Its assertion plays no part.
pub flagged_iff :
    (r : Record)
    → (is_flagged (classify_record r) ≡ true)
      ↔ Broken r.category (status_of r) (response_of r).body_failure
unfolding classify_record
flagged_iff r = ((λ h. ground arith), (λ h. ground arith))

-- A 4xx never raises a flag on a payload that is not clean.
pub rejected_cleanly :
    (r : Record)
    → r.category ≢ clean
    → InRange 400 500 (status_of r)
    → is_flagged (classify_record r) ≡ false
unfolding classify_record
rejected_cleanly r ne h = ground arith
