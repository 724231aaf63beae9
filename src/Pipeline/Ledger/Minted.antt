-- ===== src/Pipeline/Ledger/Minted.antt =====
-- The tags that `minted_by` gives to a prefix, and that every tag of `make_tag` is among them.
use testing_hq.Prelude.{
  ℕ, ◌≤◌, ◌≡◌, ◌↔◌, ◌⊎◌, inl, inr, refl, subst, Bool-cases, sym, ap, ◌∙◌, true, false, Option, none,
  some, [], ◌∷◌, ◌++◌, arith, length, all, is_empty,
}
use testing_hq.Prelude.Text.{Text, strip_prefix, strip_prefix-append, strip_prefix_sound}
use testing_hq.Pipeline.Strings.{Strings}
use testing_hq.Pipeline.Ledger.Tags.{
  tail_behind, dash, index_part, seed_part, tag_tail, minted_with,
}

module _ (py : Strings) where
  open py use {is_digit}

  -- `<seed>-<index>` without a sign: digits, a dash, four digits or more.
  pub record Numbered (t : Text) : Type 0 where
    pub seed : Text
    pub index : Text
    pub text_eq : t ≡ seed ++ dash ∷ index
    pub seed_given : is_empty seed ≡ false
    pub seed_digits : all is_digit seed ≡ true
    pub index_long : 4 ≤ length index
    pub index_digits : all is_digit index ≡ true

  seed_part_complete :
      (seed index : Text)
      → is_empty seed ≡ false
      → all is_digit seed ≡ true
      → 4 ≤ length index
      → all is_digit index ≡ true
      → seed_part py (seed ++ dash ∷ index) ≡ true
  unfolding seed_part
  seed_part_complete [] index g s l d = cc
  seed_part_complete (c ∷ []) index g s l d = ground arith
  seed_part_complete (c ∷ e ∷ seed) index g s l d =
      ground (arith, seed_part_complete (e ∷ seed) index refl)

  Numbered-cons : (c : ℕ) (t : Text) → is_digit c ≡ true → Numbered t → Numbered (c ∷ t)
  Numbered-cons c t d n = record {
    seed = c ∷ n.seed;
    index = n.index;
    text_eq = ap (λ s. c ∷ s) n.text_eq;
    seed_given = refl;
    seed_digits = ground (arith, d, n.seed_digits);
    index_long = n.index_long;
    index_digits = n.index_digits;
  }

  index_Numbered :
      (c : ℕ) (t : Text) → is_digit c ≡ true → index_part py t ≡ true → Numbered (c ∷ t)
  unfolding index_part
  index_Numbered c [] d h = cc
  index_Numbered c (e ∷ ds) d h = record {
    seed = c ∷ [];
    index = ds;
    text_eq = ground arith;
    seed_given = refl;
    seed_digits = ground arith;
    index_long = ground arith;
    index_digits = ground arith;
  }

  seed_part_sound : (t : Text) → seed_part py t ≡ true → Numbered t
  unfolding seed_part
  seed_part_sound [] h = cc
  seed_part_sound (c ∷ t) h = elim (Bool-cases (is_digit c)) [
    | inl d ↦ elim (Bool-cases (index_part py t)) [
      | inl i ↦ index_Numbered c t d i
      | inr i ↦ Numbered-cons c t d (seed_part_sound t (ground arith))
    ]
    | inr d ↦ cc
  ]

  seed_part_iff : (t : Text) → (seed_part py t ≡ true) ↔ Numbered t
  seed_part_iff t = (
    seed_part_sound t,
    (λ n.
        subst (λ s. seed_part py s ≡ true) (sym n.text_eq)
          (seed_part_complete n.seed n.index n.seed_given n.seed_digits n.index_long
            n.index_digits)),
  )

  -- A tail is numbered, or is a dash and something numbered.
  abbrev pub Tail : Text → Type 0
  Tail t = Numbered t ⊎ ((u : Text) × (t ≡ dash ∷ u) × Numbered u)

  tag_tail_sound : (t : Text) → tag_tail py t ≡ true → Tail t
  unfolding tag_tail
  tag_tail_sound [] h = cc
  tag_tail_sound (c ∷ t) h = elim (Bool-cases (seed_part py (c ∷ t))) [
    | inl s ↦ inl (seed_part_sound (c ∷ t) s)
    | inr s ↦ inr (t, ground arith, seed_part_sound t (ground arith))
  ]

  tag_tail_complete : (t : Text) → Tail t → tag_tail py t ≡ true
  unfolding tag_tail
  tag_tail_complete [] (inl n) = ground (arith, (seed_part_iff []).1 n)
  tag_tail_complete [] (inr (u, e, n)) = cc
  tag_tail_complete (c ∷ t) (inl n) = ground (arith, (seed_part_iff (c ∷ t)).1 n)
  tag_tail_complete (c ∷ t) (inr (u, e, n)) = ground (arith, e, (seed_part_iff u).1 n)

  pub minted_with_iff :
      (tag prefix : Text)
      → (minted_with py tag prefix ≡ true)
        ↔ ((t : Text) × (tag ≡ (prefix ++ dash ∷ []) ++ t) × Tail t)
  unfolding minted_with
  minted_with_iff tag prefix = (there, back)
    where
      behind :
          (o : Option Text)
          → strip_prefix (prefix ++ dash ∷ []) tag ≡ o
          → tail_behind py o ≡ true
          → (t : Text) × (tag ≡ (prefix ++ dash ∷ []) ++ t) × Tail t
      behind none e h = cc
      behind (some t) e h =
          (t, strip_prefix_sound (prefix ++ dash ∷ []) tag t e, tag_tail_sound t h)

      there :
          minted_with py tag prefix ≡ true
          → (t : Text) × (tag ≡ (prefix ++ dash ∷ []) ++ t) × Tail t
      there h = behind (strip_prefix (prefix ++ dash ∷ []) tag) refl h

      back :
          ((t : Text) × (tag ≡ (prefix ++ dash ∷ []) ++ t) × Tail t)
          → minted_with py tag prefix ≡ true
      back (t, e, n) =
          ap (λ s. tail_behind py (strip_prefix (prefix ++ dash ∷ []) s)) e
          ∙ ap (tail_behind py) (strip_prefix-append (prefix ++ dash ∷ []) t)
          ∙ tag_tail_complete t n
