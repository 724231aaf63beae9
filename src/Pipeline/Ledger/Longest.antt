-- ===== src/Pipeline/Ledger/Longest.antt =====
-- `minted_by` gives a tag to the longest prefix that minted it, and finds every tag of `make_tag`.
use testing_hq.Prelude.{
  ◌≤◌, ◌≡◌, ◌↔◌, ◌⊎◌, inl, inr, refl, sym, subst, true, false, Option, none, some, List, [], ◌∷◌,
  ◌++◌, arith, length, is_some, In, Bool-cases,
}
use testing_hq.Prelude.Text.{Text}
use testing_hq.Prelude.Sort.{insert_by, sort_by}
use testing_hq.Pipeline.Strings.{Strings}
use testing_hq.Pipeline.Ledger.Tags.{
  dash, Family, prefixes, not_shorter, minted_with, first_that_minted, minted_by, in_family,
}
use testing_hq.Pipeline.Ledger.Minted.{Tail, minted_with_iff}

-- No text is longer than one before it.
abbrev NoneLonger : Text → List Text → Type 0
NoneLonger p [] = Unit
NoneLonger p (q ∷ qs) = (length q ≤ length p) × NoneLonger p qs

abbrev Descending : List Text → Type 0
Descending [] = Unit
Descending (p ∷ ps) = NoneLonger p ps × Descending ps

NoneLonger-at : (p q : Text) (ps : List Text) → NoneLonger p ps → In q ps → length q ≤ length p
NoneLonger-at p q [] h i = elim i [ ]
NoneLonger-at p q (r ∷ ps) h (inl e) = ground (arith, e)
NoneLonger-at p q (r ∷ ps) h (inr i) = NoneLonger-at p q ps h.1 i

NoneLonger-weaken :
    (p q : Text) (ps : List Text) → length p ≤ length q → NoneLonger p ps → NoneLonger q ps
NoneLonger-weaken p q [] l h = tt
NoneLonger-weaken p q (r ∷ ps) l h = (omega (arith, h.0), NoneLonger-weaken p q ps l h.1)

NoneLonger-insert :
    (p q : Text) (ps : List Text)
    → length q ≤ length p
    → NoneLonger p ps
    → NoneLonger p (insert_by not_shorter q ps)
unfolding insert_by
NoneLonger-insert p q [] l h = (l, tt)
NoneLonger-insert p q (r ∷ ps) l h = ground (arith, NoneLonger-insert p q ps)

insert_by-Descending :
    (q : Text) (ps : List Text) → Descending ps → Descending (insert_by not_shorter q ps)
unfolding insert_by
insert_by-Descending q [] h = (tt, tt)
insert_by-Descending q (r ∷ ps) h =
    ground (arith, NoneLonger-insert r q ps, insert_by-Descending q ps, NoneLonger-weaken r q ps)

sort_by-Descending : (ps : List Text) → Descending (sort_by not_shorter ps)
unfolding sort_by
sort_by-Descending [] = tt
sort_by-Descending (p ∷ ps) =
    insert_by-Descending p (sort_by not_shorter ps) (sort_by-Descending ps)

In-insert_by :
    (x q : Text) (ps : List Text) → In x (insert_by not_shorter q ps) ↔ ((x ≡ q) ⊎ In x ps)
unfolding insert_by
In-insert_by x q [] = ground arith
In-insert_by x q (r ∷ ps) = ground (arith, In-insert_by x q ps)

In-sort_by : (x : Text) (ps : List Text) → In x (sort_by not_shorter ps) ↔ In x ps
unfolding sort_by
In-sort_by x [] = ground arith
In-sort_by x (p ∷ ps) = ground (arith, In-insert_by x p (sort_by not_shorter ps), In-sort_by x ps)

module _ (py : Strings) (tag : Text) where
  -- The longest prefix of a list that minted the tag.
  abbrev pub LongestOf : List Text → Text → Type 0
  LongestOf ps p =
      In p ps
      × (minted_with py tag p ≡ true)
      × ((q : Text) → In q ps → minted_with py tag q ≡ true → length q ≤ length p)

  first_longest :
      (ps : List Text) (p : Text)
      → Descending ps
      → first_that_minted py tag ps ≡ some p
      → LongestOf ps p
  unfolding first_that_minted
  first_longest [] p d e = cc
  first_longest (q ∷ ps) p d e = elim (Bool-cases (minted_with py tag q)) [
    | inl m ↦ subst (LongestOf (q ∷ ps)) (the_first m) (inl refl, m, (λ r i n. bound r i))
    | inr m ↦
        let (i, n, b) = first_longest ps p d.1 (later m) in
        (inr i, n, (λ r j k. elim j [ inl f ↦ cc | inr j' ↦ b r j' k ]))
  ]
    where
      the_first : minted_with py tag q ≡ true → q ≡ p
      the_first m = ground (arith, e)

      later : minted_with py tag q ≡ false → first_that_minted py tag ps ≡ some p
      later m = ground (arith, e)

      bound : (r : Text) → In r (q ∷ ps) → length r ≤ length q
      bound r (inl f) = ground (arith, f)
      bound r (inr i) = NoneLonger-at q r ps d.0 i

  first_none :
      (ps : List Text) (q : Text)
      → first_that_minted py tag ps ≡ none
      → In q ps
      → minted_with py tag q ≡ false
  unfolding first_that_minted
  first_none [] q e i = elim i [ ]
  first_none (p ∷ ps) q e (inl f) =
      subst (λ r. minted_with py tag r ≡ false) (sym f) (ground (arith, e))
  first_none (p ∷ ps) q e (inr i) = first_none ps q (ground (arith, e)) i

  -- The prefix that `minted_by` gives to a tag is one of the family, minted the tag, and no longer
  -- prefix of the family did.
  pub minted_by_longest :
      (family : Family) (p : Text)
      → minted_by py tag family ≡ some p
      → LongestOf (prefixes family) p
  unfolding minted_by
  minted_by_longest family p e =
      let ps = prefixes family in
      let (i, m, b) = first_longest (sort_by not_shorter ps) p (sort_by-Descending ps) e in
      ((In-sort_by p ps).0 i, m, (λ q j. b q ((In-sort_by q ps).1 j)))

  -- A tag is in a family if and only if one of the family's prefixes minted it: the tag is that
  -- prefix, a dash, an optional sign, one digit or more, a dash, and four digits or more.
  pub in_family_iff :
      (family : Family)
      → (in_family py tag family ≡ true) ↔ (
          (p : Text) × In p (prefixes family)
          × ((t : Text) × (tag ≡ (p ++ dash ∷ []) ++ t) × Tail py t))
  unfolding in_family minted_by
  in_family_iff family = (there (minted_by py tag family) refl, back (minted_by py tag family) refl)
    where
      there :
          (o : Option Text)
          → minted_by py tag family ≡ o
          → is_some o ≡ true
          → ((p : Text) × In p (prefixes family)
              × ((t : Text) × (tag ≡ (p ++ dash ∷ []) ++ t) × Tail py t))
      there none e h = cc
      there (some p) e h =
          let (i, m, b) = minted_by_longest family p e in (p, i, (minted_with_iff py tag p).0 m)

      back :
          (o : Option Text)
          → minted_by py tag family ≡ o
          → ((p : Text) × In p (prefixes family)
              × ((t : Text) × (tag ≡ (p ++ dash ∷ []) ++ t) × Tail py t))
          → is_some o ≡ true
      back none e (p, i, t) = cc (
        (minted_with_iff py tag p).1 t,
        first_none (sort_by not_shorter (prefixes family)) p e
            ((In-sort_by p (prefixes family)).1 i),
      )
      back (some p) e h = refl
