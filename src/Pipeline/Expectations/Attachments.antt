-- ===== src/Pipeline/Expectations/Attachments.antt =====
-- When the attachments of a record are the expected ones.
use testing_hq.Prelude.{
  ◌≡◌, ◌↔◌, refl, sym, subst, ◌∙◌, Bool, true, false, List, [], ◌∷◌, ◌++◌, arith, map, all,
  Bool-cases, inl, inr, if◌then◌else◌,
}
use testing_hq.Prelude.Text.{Text, text_eq, text_beq, text_beq_iff}
use testing_hq.Prelude.TextOrder.{sorted_set, sorted_set_iff}
use testing_hq.Prelude.Distinct.{mem}
use testing_hq.Pipeline.Readback.{Readback}
use testing_hq.Pipeline.Readback.Normalize.{Words, clean_names, normalize_attachment_names}
use testing_hq.Pipeline.Expectations.Expected.{Expectations, exact_names, loose_names}
use testing_hq.Pipeline.Expectations.Values.{
  Patterns, loose_attachment_key, times_in, as_often, same_counts,
}
use testing_hq.Pipeline.Expectations.Checks.{same_texts, wanted_names, attachments_ok}

same_texts_iff : (ss ts : List Text) → (same_texts ss ts ≡ true) ↔ (ss ≡ ts)
same_texts_iff [] [] = ground arith
same_texts_iff [] (t ∷ ts) = ground arith
same_texts_iff (s ∷ ss) [] = ground arith
same_texts_iff (s ∷ ss) (t ∷ ts) = ground (arith, text_beq_iff s t, same_texts_iff ss ts)

times_in_absent : (k : Text) (xs : List Text) → mem k xs ≡ false → times_in k xs ≡ 0
times_in_absent k [] h = refl
times_in_absent k (x ∷ xs) h = ground (arith, times_in_absent k xs)

mem-append :
    (k : Text) (xs ys : List Text) → mem k (xs ++ ys) ≡ (if mem k xs then true else mem k ys)
mem-append k [] ys = refl
mem-append k (x ∷ xs) ys = ground (arith, mem-append k xs ys)

at_member :
    (p : Text → Bool) (zs : List Text) (k : Text) → all p zs ≡ true → mem k zs ≡ true → p k ≡ true
at_member p [] k h m = cc
at_member p (z ∷ zs) k h m = elim (Bool-cases (text_beq z k)) [
  | inl s ↦ subst (λ x. p x ≡ true) ((text_beq_iff z k).0 s) (ground (arith, h))
  | inr s ↦ at_member p zs k (ground (arith, h)) (ground (arith, m))
]

everywhere : (p : Text → Bool) (zs : List Text) → ((k : Text) → p k ≡ true) → all p zs ≡ true
everywhere p [] h = refl
everywhere p (z ∷ zs) h = ground (arith, h z, everywhere p zs h)

same_counts_iff :
    (xs ys : List Text) → (same_counts xs ys ≡ true) ↔ ((k : Text) → times_in k xs ≡ times_in k ys)
unfolding same_counts
same_counts_iff xs ys = (there, back)
  where
    there : all (as_often xs ys) (xs ++ ys) ≡ true → (k : Text) → times_in k xs ≡ times_in k ys
    there h k = elim (Bool-cases (mem k (xs ++ ys))) [
      | inl m ↦ let found = at_member (as_often xs ys) (xs ++ ys) k h m in ground (arith, found)
      | inr m ↦ ground (arith, mem-append k xs ys, times_in_absent k xs, times_in_absent k ys)
    ]

    back : ((k : Text) → times_in k xs ≡ times_in k ys) → all (as_often xs ys) (xs ++ ys) ≡ true
    back h = everywhere (as_often xs ys) (xs ++ ys) (λ k. ground (arith, h k))

module _ (words : Words) (patterns : Patterns) (e : Expectations) (r : Readback) where
  -- Where names are compared exactly, the attachments of a record are as expected if and only if
  -- the same names are among the expected and the stored ones, cleaned; their order and number do
  -- not count.
  pub attachments_exact_iff :
      e.attachment_match ≡ exact_names
      → (attachments_ok words patterns e r ≡ true) ↔ (
          (x : Text)
          → mem x (clean_names words e.attachment_names)
            ≡ mem x (clean_names words r.attachment_names))
  unfolding attachments_ok wanted_names normalize_attachment_names
  attachments_exact_iff m =
      let xs = clean_names words e.attachment_names in
      let ys = clean_names words r.attachment_names in
      let compared : attachments_ok words patterns e r
          ≡ same_texts (sorted_set xs) (sorted_set ys) =
        ground (arith, m) in
      let same = same_texts_iff (sorted_set xs) (sorted_set ys) in
      let members = sorted_set_iff xs ys in
      ((λ h. members.0 (same.0 (sym compared ∙ h))), (λ h. compared ∙ same.1 (members.1 h)))

  -- Where names are compared loosely, they are as expected if and only if every key stands for as
  -- many expected names as stored ones.
  pub attachments_loose_iff :
      e.attachment_match ≡ loose_names
      → (attachments_ok words patterns e r ≡ true) ↔ (
          (k : Text)
          → times_in k (map (loose_attachment_key words patterns) e.attachment_names)
            ≡ times_in k (map (loose_attachment_key words patterns) r.attachment_names))
  unfolding attachments_ok
  attachments_loose_iff m =
      let xs = map (loose_attachment_key words patterns) e.attachment_names in
      let ys = map (loose_attachment_key words patterns) r.attachment_names in
      let compared : attachments_ok words patterns e r ≡ same_counts xs ys = ground (arith, m) in
      let counts = same_counts_iff xs ys in
      ((λ h. counts.0 (sym compared ∙ h)), (λ h. compared ∙ counts.1 h))
