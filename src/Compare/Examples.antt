-- ===== src/Compare/Examples.antt =====
-- Runs of `compare` on small artifacts, and the theorems at them.
use testing_hq.Prelude.{ℕ, length, ◌≡◌, refl, true, false, none, some, List, [], ◌∷◌}
use testing_hq.Prelude.Int.{pos}
use testing_hq.Prelude.Text.{Text, codes}
use testing_hq.Prelude.Dict.{lookup, insert, contains}
use testing_hq.Core.Report.{Record, Response, outcome_beq, classify_record}
use testing_hq.Core.Report.Kinds.{clean}
use testing_hq.Compare.Diff.{Artifact, Section, section_of, comparable}
use testing_hq.Compare.Loop.{
  Report, compare_pair, Comparison, nothing_to_compare, compared, compare,
}

abbrev answered : ℕ → Response
answered s = record { status = some s; error_kind = none; error = none; body_failure = false }

abbrev payload : Text → ℕ → Record
payload name s = record {
  id = some name;
  category = clean;
  response = some (answered s);
  assertion_passed = none;
}

abbrev run : List Record → Artifact
run records = record {
  seed = pos 1;
  config = record { count = codes "2"; mix = none; attachments = none; target = none };
  summary = record { by_status_class = []; by_category = []; flags = [] };
  records = records;
}

abbrev before : Artifact
before = run (payload (codes "a") 200 ∷ payload (codes "b") 500 ∷ payload (codes "c") 204 ∷ [])

abbrev after : Artifact
after = run (payload (codes "b") 200 ∷ payload (codes "a") 404 ∷ [])

same : Text → Text
same t = t

-- The report of a comparison that found something to compare.
the_report : Report → Comparison → Report
the_report default (compared r) = r
the_report default (nothing_to_compare m n ws) = default

abbrev empty_section : Section
empty_section = record { count = 0; records = []; truncated = false }

abbrev no_report : Report
no_report = record {
  comparable = true;
  warnings = [];
  aligned_by_index = false;
  baseline_seed = pos 0;
  candidate_seed = pos 0;
  records_compared = 0;
  unchanged = 0;
  regressions = empty_section;
  fixes = empty_section;
  changes = empty_section;
  totals = [];
  baseline_flags = 0;
  candidate_flags = 0;
  regressed = false;
}

found : Report
unfolding the_report
found = the_report no_report (compare same before after)

-- "a" regressed, "b" was fixed, and "c" is only in the baseline.
found_counts :
    (found.regressions.count ≡ 1)
    × (found.fixes.count ≡ 1)
    × (found.records_compared ≡ 2)
    × (length found.warnings ≡ 1)
unfolding found compare section_of insert contains lookup compare_pair outcome_beq classify_record
    comparable
found_counts = (refl, refl, refl, refl)
