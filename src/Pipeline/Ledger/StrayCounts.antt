-- ===== src/Pipeline/Ledger/StrayCounts.antt =====
-- Where `classify_strays` puts each record of an enumeration.
use testing_hq.Prelude.{
  ℕ, suc, ◌+◌, ◌≡◌, refl, Bool, true, false, List, [], ◌∷◌, arith, length, count_if, if◌then◌else◌,
}
use testing_hq.Prelude.Text.{Text, text_eq}
use testing_hq.Pipeline.Strings.{Strings}
use testing_hq.Pipeline.Readback.{Readback}
use testing_hq.Pipeline.Ledger.Tags.{Family}
use testing_hq.Pipeline.Ledger.Strays.{
  Sorted, Stray, own, untagged_record, extra_record, other_run, stray_kind, add_stray,
  classify_strays,
}

abbrev pub is_own : Stray → Bool
is_own own = true
is_own untagged_record = false
is_own (extra_record e) = false
is_own (other_run e) = false

module _ (py : Strings) (sent tickets : List Text) (family : Family) where
  abbrev sort_out : List Readback → Sorted
  sort_out rs = classify_strays py rs sent tickets family

  abbrev kind : Readback → Stray
  kind = stray_kind py sent tickets family

  abbrev listed : Sorted → ℕ
  listed s = length s.extra + length s.other_runs + s.untagged

  listed-add_stray :
      (k : Stray) (s : Sorted)
      → listed (add_stray k s) + (if is_own k then 1 else 0) ≡ suc (listed s)
  unfolding add_stray
  listed-add_stray Stray.own s = omega arith
  listed-add_stray untagged_record s = omega arith
  listed-add_stray (extra_record e) s = omega arith
  listed-add_stray (other_run e) s = omega arith

  -- Every record of an enumeration is this run's own, or is counted once: as extra, as another
  -- run's or as untagged.
  pub every_stray_counted :
      (rs : List Readback)
      → length (sort_out rs).extra
          + length (sort_out rs).other_runs
          + (sort_out rs).untagged
          + count_if (λ r. is_own (kind r)) rs
        ≡ length rs
  unfolding classify_strays
  every_stray_counted [] = refl
  every_stray_counted (r ∷ rs) =
      ground (arith, listed-add_stray (kind r) (sort_out rs), every_stray_counted rs)
