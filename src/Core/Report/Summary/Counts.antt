-- ===== src/Core/Report/Summary/Counts.antt =====
-- The counts of a summary are the counts of its records.
use testing_hq.Prelude.{
  ℕ, ◌+◌, ◌≡◌, ap, ◌∙◌, Bool, true, false, ◌&&◌, some, List, [], ◌∷◌, arith, count_if, ◌==◌, Eq,
  if◌then◌else◌,
}
use testing_hq.Prelude.Text.{Text}
use testing_hq.Prelude.Dict.{Dict, lookup, contains, lookup-insert, contains-eq-is_some}
use testing_hq.Core.Report.{Record, response_of, status_of, status_class, is_none}
use testing_hq.Core.Report.Kinds.{
  Category, category_eq, category_beq_iff, StatusClass, status_class_eq, ErrorKind, error_kind_eq,
}
use testing_hq.Core.Report.Flags.{error_kind}
use testing_hq.Core.Report.Summary.{
  Summary, bump, or_zero, count_record, count_records, empty_summary, compute_summary,
}

lookup-bump :
    {K : Type 0} ⦃e : Eq K⦄ (k j : K) (d : Dict K ℕ) (n : ℕ)
    → lookup j d ≡ some n
    → lookup j (bump k d) ≡ some (if k == j then n + 1 else n)
unfolding bump
lookup-bump ⦃e⦄ k j d n h =
    ground (arith, e.equals_iff k j, lookup-insert k j (or_zero (lookup k d) + 1) d)

lookup-bump_if :
    {K : Type 0} ⦃e : Eq K⦄ (b : Bool) (k j : K) (d : Dict K ℕ) (n : ℕ)
    → lookup j d ≡ some n
    → lookup j (if b then bump k d else d) ≡ some (if b && (k == j) then n + 1 else n)
lookup-bump_if true k j d n h = lookup-bump k j d n h
lookup-bump_if false k j d n h = h

-- One more record in front of the rest of a count.
count_step :
    {A : Type 0} (p : A → Bool) (x : A) (xs : List A) (n : ℕ)
    → (if p x then n + 1 else n) + count_if p xs ≡ n + count_if p (x ∷ xs)
count_step p x xs n = ground arith

empty_status : (c : StatusClass) → lookup c empty_summary.by_status_class ≡ some 0
unfolding empty_summary lookup
empty_status c = ground arith

empty_transport : (k : ErrorKind) → lookup k empty_summary.transport_errors ≡ some 0
unfolding empty_summary lookup
empty_transport k = ground arith

empty_category :
    (c : Category)
    → contains c empty_summary.by_category ≡ true
    → lookup c empty_summary.by_category ≡ some 0
unfolding empty_summary lookup contains
empty_category c h = ground arith

abbrev pub has_class : StatusClass → Record → Bool
has_class c r = status_class (status_of r) == c

abbrev pub has_category : Category → Record → Bool
has_category c r = r.category == c

module _ (lower : Text → Text) where
  abbrev pub failed_as : ErrorKind → Record → Bool
  failed_as k r = is_none (status_of r) && (error_kind lower (response_of r) == k)

  count_records-status :
      (c : StatusClass) (s : Summary) (rs : List Record) (n : ℕ)
      → lookup c s.by_status_class ≡ some n
      → lookup c (count_records lower s rs).by_status_class ≡ some (n + count_if (has_class c) rs)
  unfolding count_records
  count_records-status c s [] n h = ground arith
  count_records-status c s (r ∷ rs) n h =
      count_records-status c (count_record lower s r) rs _
        (lookup-bump (status_class (status_of r)) c s.by_status_class n h)
      ∙ ap some (count_step (has_class c) r rs n)

  count_records-transport :
      (k : ErrorKind) (s : Summary) (rs : List Record) (n : ℕ)
      → lookup k s.transport_errors ≡ some n
      → lookup k (count_records lower s rs).transport_errors ≡ some (n + count_if (failed_as k) rs)
  unfolding count_records
  count_records-transport k s [] n h = ground arith
  count_records-transport k s (r ∷ rs) n h =
      count_records-transport k (count_record lower s r) rs _ (
        lookup-bump_if (is_none (status_of r)) (error_kind lower (response_of r)) k
          s.transport_errors n h)
      ∙ ap some (count_step (failed_as k) r rs n)

  -- A category that has a counter is counted wherever it occurs.
  count_category :
      (c : Category) (s : Summary) (r : Record) (n : ℕ)
      → lookup c s.by_category ≡ some n
      → lookup c (count_record lower s r).by_category ≡ some (if has_category c r then n + 1 else n)
  unfolding count_record
  count_category c s r n h = ground (
    arith,
    category_beq_iff r.category c,
    contains-eq-is_some r.category s.by_category,
    lookup-bump_if (contains r.category s.by_category) r.category c s.by_category n h,
  )

  count_records-category :
      (c : Category) (s : Summary) (rs : List Record) (n : ℕ)
      → lookup c s.by_category ≡ some n
      → lookup c (count_records lower s rs).by_category ≡ some (n + count_if (has_category c) rs)
  unfolding count_records
  count_records-category c s [] n h = ground arith
  count_records-category c s (r ∷ rs) n h =
      count_records-category c (count_record lower s r) rs _ (count_category c s r n h)
      ∙ ap some (count_step (has_category c) r rs n)

  -- Every response class counts exactly the records whose status falls in it.
  pub by_status_class-count :
      (c : StatusClass) (rs : List Record)
      → lookup c (compute_summary lower rs).by_status_class ≡ some (count_if (has_class c) rs)
  unfolding compute_summary
  by_status_class-count c rs =
      count_records-status c empty_summary rs 0 (empty_status c) ∙ ap some (omega arith)

  -- Every reason for a missing response counts exactly the records without a status that have it.
  pub transport_errors-count :
      (k : ErrorKind) (rs : List Record)
      → lookup k (compute_summary lower rs).transport_errors ≡ some (count_if (failed_as k) rs)
  unfolding compute_summary
  transport_errors-count k rs =
      count_records-transport k empty_summary rs 0 (empty_transport k) ∙ ap some (omega arith)

  -- Every known category counts exactly the records that carry it.
  pub by_category-count :
      (c : Category) (rs : List Record)
      → contains c empty_summary.by_category ≡ true
      → lookup c (compute_summary lower rs).by_category ≡ some (count_if (has_category c) rs)
  unfolding compute_summary
  by_category-count c rs known =
      count_records-category c empty_summary rs 0 (empty_category c known) ∙ ap some (omega arith)
