-- ===== src/Core/Report/Summary/Flagged.antt =====
-- The flags of a summary, and the verdict that rests on them.
use testing_hq.Prelude.{
  ℕ, ◌+◌, ◌≡◌, refl, ◌∙◌, ◌↔◌, Bool, true, false, not, Option, none, some, List, [], ◌∷◌, ◌++◌,
  arith, length, length-append, is_empty, all, count_if, Bool-cases, inl, inr, if◌then◌else◌,
}
use testing_hq.Prelude.Text.{Text}
use testing_hq.Core.Report.{
  Record, Outcome, clean_failed, body_failed, status_of, classify_record, is_flagged,
}
use testing_hq.Core.Report.Kinds.{label}
use testing_hq.Core.Report.Flags.{flag_text, flag_for_record}
use testing_hq.Core.Report.Summary.{
  Summary, append_flag, count_record, count_records, empty_summary, compute_summary, clean_run,
  verdict,
}

nonempty-append : (xs : Text) (c : ℕ) (ys : Text) → is_empty (xs ++ c ∷ ys) ≡ false
nonempty-append [] c ys = refl
nonempty-append (x ∷ xs) c ys = refl

append_flag-some :
    (t : Text) (flags : List Text)
    → is_empty t ≡ false
    → length (append_flag (some t) flags) ≡ length flags + 1
unfolding append_flag
append_flag-some [] flags h = cc
append_flag-some (c ∷ t) flags h = length-append flags ((c ∷ t) ∷ [])

abbrev pub has_flag : Record → Bool
has_flag r = is_flagged (classify_record r)

module _ (lower : Text → Text) where
  flag_text_nonempty :
      (o : Outcome) (r : Record) (status : Option ℕ) → is_empty (flag_text lower o r status) ≡ false
  unfolding flag_text
  flag_text_nonempty clean_failed r none = refl
  flag_text_nonempty clean_failed r (some s) = refl
  flag_text_nonempty body_failed r status = nonempty-append (label r.category) 32 _
  flag_text_nonempty o r none = nonempty-append (label r.category) 32 _
  flag_text_nonempty o r (some s) = nonempty-append (label r.category) 32 _

  count_record-flags :
      (s : Summary) (r : Record)
      → length (count_record lower s r).flags
        ≡ (if has_flag r then length s.flags + 1 else length s.flags)
  unfolding count_record flag_for_record append_flag
  count_record-flags s r = elim (Bool-cases (has_flag r)) [
    | inl yes_flag ↦ rw yes_flag (
        append_flag-some (flag_text lower (classify_record r) r (status_of r)) s.flags
          (flag_text_nonempty (classify_record r) r (status_of r)))
    | inr no_flag ↦ rw no_flag
  ]

  count_records-flags :
      (s : Summary) (rs : List Record)
      → length (count_records lower s rs).flags ≡ length s.flags + count_if has_flag rs
  unfolding count_records
  count_records-flags s [] = omega arith
  count_records-flags s (r ∷ rs) =
      ground (arith, count_records-flags (count_record lower s r) rs, count_record-flags s r)

  -- A summary lists exactly one flag for every record whose outcome is flagged.
  pub flags-count :
      (rs : List Record) → length (compute_summary lower rs).flags ≡ count_if has_flag rs
  unfolding compute_summary empty_summary
  flags-count rs = count_records-flags empty_summary rs ∙ omega arith

  clean_iff :
      (is_aborted : Bool) (s : Summary)
      → (verdict is_aborted s ≡ clean_run) ↔ ((is_aborted ≡ false) × (length s.flags ≡ 0))
  unfolding verdict
  clean_iff true s = ((λ e. cc), (λ h. cc))
  clean_iff false s = ground arith

  none_flagged :
      (rs : List Record) → (count_if has_flag rs ≡ 0) ↔ (all (λ r. not (has_flag r)) rs ≡ true)
  none_flagged [] = ((λ e. refl), (λ e. refl))
  none_flagged (r ∷ rs) = ground (arith, none_flagged rs)

  -- A run is CLEAN exactly when it was not aborted and no record of it is flagged.
  pub verdict_clean_iff :
      (is_aborted : Bool) (rs : List Record)
      → (verdict is_aborted (compute_summary lower rs) ≡ clean_run)
        ↔ ((is_aborted ≡ false) × (all (λ r. not (has_flag r)) rs ≡ true))
  verdict_clean_iff is_aborted rs =
      ground
        (arith, clean_iff is_aborted (compute_summary lower rs), flags-count rs, none_flagged rs)
