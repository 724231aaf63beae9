-- ===== src/Barrage/Report/Rank.antt =====
-- The nearest rank of a percentile.
use testing_hq.Prelude.{
  ℕ, zero, suc, ◌-◌, ◌*◌, ◌≤◌, ◌<◌, ◌≡◌, refl, sym, ap, ◌∙◌, Bool, true, false, ◌&&◌, some, List,
  [], ◌∷◌, arith, length, all, count_if, leb, ltb, is_empty,
}
use testing_hq.Prelude.Sort.{insert_by, sort_by}
use testing_hq.Barrage.Run.{place}
use testing_hq.Barrage.Report.{
  Fraction, half, nine_tenths, all_but_one_percent, hundredths, value, from_place, rank, percentile,
}

abbrev pub at_most : ℕ → ℕ → Bool
at_most v x = leb x v

abbrev pub below : ℕ → ℕ → Bool
below v x = ltb x v

abbrev ascending : List ℕ → Bool
ascending [] = true
ascending (x ∷ xs) = all (leb x) xs && ascending xs

count-insert_by :
    (p : ℕ → Bool) (x : ℕ) (xs : List ℕ) → count_if p (insert_by leb x xs) ≡ count_if p (x ∷ xs)
unfolding insert_by
count-insert_by p x [] = refl
count-insert_by p x (y ∷ ys) = ground (arith, count-insert_by p x ys)

count-sort_by : (p : ℕ → Bool) (xs : List ℕ) → count_if p (sort_by leb xs) ≡ count_if p xs
unfolding sort_by
count-sort_by p [] = refl
count-sort_by p (x ∷ xs) = ground (arith, count-insert_by p x (sort_by leb xs), count-sort_by p xs)

all-insert_by :
    (p : ℕ → Bool) (x : ℕ) (xs : List ℕ) → all p (insert_by leb x xs) ≡ (p x && all p xs)
unfolding insert_by
all-insert_by p x [] = refl
all-insert_by p x (y ∷ ys) = ground (arith, all-insert_by p x ys)

all_mono : (a b : ℕ) (xs : List ℕ) → a ≤ b → all (leb b) xs ≡ true → all (leb a) xs ≡ true
all_mono a b [] h t = refl
all_mono a b (x ∷ xs) h t = ground (arith, all_mono a b xs)

ascending-insert_by :
    (x : ℕ) (xs : List ℕ) → ascending xs ≡ true → ascending (insert_by leb x xs) ≡ true
unfolding insert_by
ascending-insert_by x [] h = refl
ascending-insert_by x (y ∷ ys) h =
    ground (arith, all-insert_by (leb y) x ys, all_mono x y ys, ascending-insert_by x ys)

ascending-sort_by : (xs : List ℕ) → ascending (sort_by leb xs) ≡ true
unfolding sort_by
ascending-sort_by [] = refl
ascending-sort_by (x ∷ xs) = ascending-insert_by x (sort_by leb xs) (ascending-sort_by xs)

count_every : (xs : List ℕ) → count_if (λ x. true) xs ≡ length xs
count_every [] = refl
count_every (x ∷ xs) = ap suc (count_every xs)

length-sort_by : (xs : List ℕ) → length (sort_by leb xs) ≡ length xs
length-sort_by xs =
    sym (count_every (sort_by leb xs)) ∙ count-sort_by (λ x. true) xs ∙ count_every xs

all-place :
    (p : ℕ → Bool) (k : ℕ) (xs : List ℕ) (v : ℕ)
    → place k xs ≡ some v
    → all p xs ≡ true
    → p v ≡ true
unfolding place
all-place p k [] v e h = cc
all-place p zero (x ∷ xs) v e h = ground arith
all-place p (suc k) (x ∷ xs) v e h = ground (arith, all-place p k xs v)

none_below : (v : ℕ) (xs : List ℕ) → all (leb v) xs ≡ true → count_if (below v) xs ≡ 0
none_below v [] h = refl
none_below v (x ∷ xs) h = ground (arith, none_below v xs)

place-ascending :
    (k : ℕ) (xs : List ℕ) (v : ℕ)
    → ascending xs ≡ true
    → place k xs ≡ some v
    → (k < count_if (at_most v) xs) × (count_if (below v) xs ≤ k)
unfolding place
place-ascending k [] v h e = cc
place-ascending zero (x ∷ xs) v h e = ground (arith, none_below x xs)
place-ascending (suc k) (x ∷ xs) v h e =
    ground (arith, place-ascending k xs v, all-place (leb x) k xs v)

place_total : (k : ℕ) (xs : List ℕ) → k < length xs → (v : ℕ) × (place k xs ≡ some v)
unfolding place
place_total k [] h = (0, ground arith)
place_total zero (x ∷ xs) h = (x, refl)
place_total (suc k) (x ∷ xs) h = place_total k xs (omega arith)

-- The rank is the least one, from 1 on, that has the fraction of the values at or before it.
rank_bounds :
    (n : ℕ) (f : Fraction)
    → 0 < n
    → (0 < rank n f)
      × ((rank n f ≤ n)
          × ((n * hundredths f ≤ 100 * rank n f) × (100 * (rank n f - 1) < n * hundredths f)))
unfolding rank
rank_bounds n half h = ground arith
rank_bounds n nine_tenths h = ground arith
rank_bounds n all_but_one_percent h = ground arith

filled : (values : List ℕ) → is_empty values ≡ false → 0 < length values
filled [] e = cc
filled (x ∷ xs) e = omega arith

percentile_at :
    (values : List ℕ) (f : Fraction)
    → is_empty values ≡ false
    → percentile values f ≡ from_place (place (rank (length values) f - 1) (sort_by leb values))
unfolding percentile
percentile_at values f e = ground arith

-- Of some values and a fraction of 0.50, 0.90 or 0.99, the percentile is a value v such that the
-- fraction of them, or more, is at most v, and less than the fraction of them is below v.
pub nearest_rank :
    (values : List ℕ) (f : Fraction)
    → is_empty values ≡ false
    → (v : ℕ) × (percentile values f ≡ value v)
      × (length values * hundredths f ≤ 100 * count_if (at_most v) values)
      × (100 * count_if (below v) values < length values * hundredths f)
nearest_rank values f e =
    let (from_one, rest) = rank_bounds (length values) f (filled values e) in
    let (within, bounds) = rest in
    let (enough, least) = bounds in
    let (v, at) =
      place_total (rank (length values) f - 1) (sort_by leb values)
        (omega (arith, from_one, within, length-sort_by values)) in
    let (more, less) =
      place-ascending (rank (length values) f - 1) (sort_by leb values) v (ascending-sort_by values)
        at in
    (
      v,
      percentile_at values f e ∙ ap from_place at,
      omega (arith, from_one, enough, more, count-sort_by (at_most v) values),
      omega (arith, least, less, count-sort_by (below v) values),
    )
