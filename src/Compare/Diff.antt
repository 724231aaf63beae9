-- ===== src/Compare/Diff.antt =====
-- The data of testinghq/compare/runs.py, and what stands around the comparison of the records:
-- `_comparable`, `_status_counts` and `_delta`.
use testing_hq.Prelude.{
  ℕ, Bool, true, false, not, Option, none, some, List, [], ◌∷◌, ◌++◌, length, take, ltb, ◌==◌,
  if◌then◌else◌,
}
use testing_hq.Prelude.Int.{ℤ, sub_ℕ, int_eq}
use testing_hq.Prelude.Text.{Text, codes, text_beq, text_eq}
use testing_hq.Prelude.Dict.{Dict, lookup, contains, insert, remove}
use testing_hq.Core.Report.{Record, Outcome, StatusClass}

pub record Config : Type 0 where
  pub count : Text
  pub mix : Option Text
  pub attachments : Option Text
  pub target : Option Text

-- The summary block of an artifact as the JSON file has it.
pub record StoredSummary : Type 0 where
  pub by_status_class : Dict Text ℕ
  pub by_category : Dict Text ℕ
  pub flags : List Text

pub record Artifact : Type 0 where
  pub seed : ℤ
  pub config : Config
  pub summary : StoredSummary
  pub records : List Record

pub data Warning : Type 0 where
  seeds_differ counts_differ mixes_differ attachments_differ targets_differ : Warning
  shapes_differ : ℕ → ℕ → Warning
  aligned_by_position : Warning

abbrev option_beq : Option Text → Option Text → Bool
option_beq none none = true
option_beq (some s) (some t) = text_beq s t
option_beq _ _ = false

abbrev attachment_mode : Option Text → Text
attachment_mode none = codes "none"
attachment_mode (some t) = t

abbrev pub warn_if : Bool → Warning → List Warning
warn_if true w = w ∷ []
warn_if false w = []

-- `_comparable`
unfoldable pub comparable : Artifact → Artifact → List Warning
comparable a b =
    warn_if (not (a.seed == b.seed)) seeds_differ
    ++ (warn_if (not (a.config.count == b.config.count)) counts_differ
        ++ (warn_if (not (option_beq a.config.mix b.config.mix)) mixes_differ
            ++ (warn_if
                  (not
                    (attachment_mode a.config.attachments == attachment_mode b.config.attachments))
                  attachments_differ
                ++ warn_if (not (option_beq a.config.target b.config.target)) targets_differ)))

timeout_as_no_response : Option ℕ → Dict Text ℕ → Dict Text ℕ
timeout_as_no_response none counts = counts
timeout_as_no_response (some n) counts =
    if contains (codes "no_response") counts
    then counts
    else insert (codes "no_response") n (remove (codes "timeout") counts)

-- `_status_counts`
pub status_counts : StoredSummary → Dict Text ℕ
unfolding timeout_as_no_response
status_counts s =
    timeout_as_no_response (lookup (codes "timeout") s.by_status_class) s.by_status_class

pub record Row : Type 0 where
  pub key : Text
  pub baseline : ℕ
  pub candidate : ℕ
  pub delta : ℤ

abbrev pub count_of : Text → Dict Text ℕ → ℕ
count_of k d = elim (lookup k d) [ none ↦ 0 | some n ↦ n ]

-- `_delta`
pub delta_rows : Dict Text ℕ → Dict Text ℕ → List Text → List Row
delta_rows before after [] = []
delta_rows before after (k ∷ ks) =
    record {
      key = k;
      baseline = count_of k before;
      candidate = count_of k after;
      delta = sub_ℕ (count_of k after) (count_of k before);
    }
    ∷ delta_rows before after ks

-- STATUS_CLASS_KEYS and CATEGORIES
abbrev status_class_keys : List Text
status_class_keys =
    codes "1xx"
    ∷ codes "2xx"
    ∷ codes "3xx"
    ∷ codes "4xx"
    ∷ codes "5xx"
    ∷ codes "other"
    ∷ codes "no_response"
    ∷ []

abbrev category_keys : List Text
category_keys =
    codes "clean"
    ∷ codes "messy-but-valid"
    ∷ codes "multilingual-gibberish"
    ∷ codes "structurally-malformed"
    ∷ codes "degenerate"
    ∷ []

pub totals : StoredSummary → StoredSummary → List Row
unfolding delta_rows status_counts
totals before after =
    delta_rows (status_counts before) (status_counts after) status_class_keys
    ++ delta_rows before.by_category after.by_category category_keys

-- One line of a section. `flag` is absent from the entries of the changes.
pub record Entry : Type 0 where
  pub id : Text
  pub from : Outcome
  pub to : Outcome
  pub status_from : StatusClass
  pub status_to : StatusClass
  pub flag : Option Text

abbrev pub max_listed : ℕ
max_listed = 25

pub record Section : Type 0 where
  pub count : ℕ
  pub records : List Entry
  pub truncated : Bool

unfoldable pub section_of : List Entry → Section
section_of entries = record {
  count = length entries;
  records = take max_listed entries;
  truncated = ltb max_listed (length entries);
}
