-- ===== src/Pipeline/Ledger/OwnTags.antt =====
-- Every tag that `make_tag` makes is minted by its prefix.
use testing_hq.Prelude.{
  append_assoc, ℕ, suc, ◌≡◌, ◌≢◌, inl, inr, refl, ◌∙◌, Bool, true, false, [], ◌∷◌, ◌++◌, arith, all,
  is_empty, In, if◌then◌else◌,
}
use testing_hq.Prelude.Text.{Text}
use testing_hq.Prelude.Decimal.{
  decimal, padded, decimal-all, decimal_nonempty, padded-all, length-padded, is_decimal,
}
use testing_hq.Prelude.Int.{ℤ, pos, negsuc}
use testing_hq.Pipeline.Strings.{Strings, HasDigits}
use testing_hq.Pipeline.Messages.{make_tag, made, Made, show_int}
use testing_hq.Pipeline.Ledger.Tags.{dash, Family, prefixes, in_family}
use testing_hq.Pipeline.Ledger.Minted.{Numbered, Tail}
use testing_hq.Pipeline.Ledger.Longest.{in_family_iff}

not_made :
    (b : Bool) (tag : Text) → (if b then Made.empty_prefix else Made.negative_index) ≢ made tag
not_made true tag f = cc
not_made false tag f = cc

the_tag : (b : Bool) (tag t : Text) → (if b then Made.empty_prefix else made t) ≡ made tag → tag ≡ t
the_tag true tag t e = cc
the_tag false tag t e = cc

module _ (py : Strings) (digits : HasDigits py) where
  open py use {is_digit}

  decimal_digits : (s : Text) → all is_decimal s ≡ true → all is_digit s ≡ true
  decimal_digits [] h = refl
  decimal_digits (c ∷ s) h = ground (arith, digits.decimal_is_digit c, decimal_digits s)

  decimal-Numbered : (n i : ℕ) → Numbered py (decimal n ++ dash ∷ padded 4 i)
  decimal-Numbered n i = record {
    seed = decimal n;
    index = padded 4 i;
    text_eq = refl;
    seed_given = decimal_nonempty n;
    seed_digits = decimal_digits (decimal n) (decimal-all n);
    index_long = length-padded 4 i;
    index_digits = decimal_digits (padded 4 i) (padded-all 4 i);
  }

  show_int-Tail : (seed : ℤ) (i : ℕ) → Tail py (show_int seed ++ dash ∷ padded 4 i)
  unfolding show_int
  show_int-Tail (pos n) i = inl (decimal-Numbered n i)
  show_int-Tail (negsuc n) i =
      inr (decimal (suc n) ++ dash ∷ padded 4 i, refl, decimal-Numbered (suc n) i)

  -- Where 0 to 9 are digits and `make_tag` makes a tag for a prefix of a family, the tag is in the
  -- family.
  pub make_tag-in_family :
      (prefix tag : Text) (seed index : ℤ) (family : Family)
      → make_tag prefix seed index ≡ made tag
      → In prefix (prefixes family)
      → in_family py tag family ≡ true
  unfolding make_tag
  make_tag-in_family prefix tag seed (negsuc i) family e h =
      absurd (not_made (is_empty prefix) tag e)
  make_tag-in_family prefix tag seed (pos i) family e h =
      let made_eq = the_tag (is_empty prefix) tag _ e in
      (in_family_iff py tag family).1 (
        prefix,
        h,
        (
          show_int seed ++ dash ∷ padded 4 i,
          made_eq
              ∙ append_assoc ((prefix ++ dash ∷ []) ++ show_int seed) (dash ∷ []) (padded 4 i)
              ∙ append_assoc (prefix ++ dash ∷ []) (show_int seed) (dash ∷ padded 4 i),
          show_int-Tail seed i,
        ),
      )
