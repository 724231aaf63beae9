-- ===== src/Barrage/Executor/Counts.antt =====
-- Counting workers, items and futures, when one of a list changes or one is added.
use testing_hq.Prelude.{
  ℕ, zero, suc, ◌+◌, ◌≤◌, ◌≡◌, refl, Bool, Option, none, some, List, [], ◌∷◌, ◌++◌, arith, length,
  count_if, nat_beq, if◌then◌else◌,
}
use testing_hq.Barrage.Run.{update_at, place}

abbrev pub one_if : Bool → ℕ
one_if b = if b then 1 else 0

abbrev over : {A : Type 0} → (A → A) → Option A → Option A
over f none = none
over f (some a) = some (f a)

module _ {A : Type 0} where
  pub length-update_at : (k : ℕ) (f : A → A) (xs : List A) → length (update_at k f xs) ≡ length xs
  unfolding update_at
  length-update_at k f [] = refl
  length-update_at zero f (x ∷ xs) = refl
  length-update_at (suc k) f (x ∷ xs) = omega (arith, length-update_at k f xs)

  pub place-update_at :
      (j k : ℕ) (f : A → A) (xs : List A)
      → place j (update_at k f xs) ≡ (if nat_beq j k then over f (place j xs) else place j xs)
  unfolding update_at place
  place-update_at j k f [] = ground arith
  place-update_at zero zero f (x ∷ xs) = refl
  place-update_at zero (suc k) f (x ∷ xs) = ground arith
  place-update_at (suc j) zero f (x ∷ xs) = ground arith
  place-update_at (suc j) (suc k) f (x ∷ xs) = ground (arith, place-update_at j k f xs)

  pub count-update_at :
      (p : A → Bool) (k : ℕ) (f : A → A) (xs : List A) (x : A)
      → place k xs ≡ some x
      → count_if p (update_at k f xs) + one_if (p x) ≡ count_if p xs + one_if (p (f x))
  unfolding update_at place
  count-update_at p k f [] x h = cc
  count-update_at p zero f (y ∷ xs) x h = ground arith
  count-update_at p (suc k) f (y ∷ xs) x h = ground (arith, count-update_at p k f xs x)

  pub count-append :
      (p : A → Bool) (xs : List A) (y : A)
      → count_if p (xs ++ y ∷ []) ≡ count_if p xs + one_if (p y)
  count-append p [] y = ground arith
  count-append p (x ∷ xs) y = ground (arith, count-append p xs y)

  pub place-append :
      (j : ℕ) (xs : List A) (y : A)
      → place j (xs ++ y ∷ []) ≡ (if nat_beq j (length xs) then some y else place j xs)
  unfolding place
  place-append zero [] y = ground arith
  place-append (suc j) [] y = ground arith
  place-append zero (x ∷ xs) y = ground arith
  place-append (suc j) (x ∷ xs) y = ground (arith, place-append j xs y)

  pub place_outside : (j : ℕ) (xs : List A) → length xs ≤ j → place j xs ≡ none
  unfolding place
  place_outside j [] h = refl
  place_outside zero (x ∷ xs) h = ground arith
  place_outside (suc j) (x ∷ xs) h = place_outside j xs (omega arith)

  pub place_inside : (j : ℕ) (xs : List A) → place j xs ≡ none → length xs ≤ j
  unfolding place
  place_inside j [] h = omega arith
  place_inside zero (x ∷ xs) h = cc
  place_inside (suc j) (x ∷ xs) h = omega (arith, place_inside j xs h)

  pub count-le-length : (p : A → Bool) (xs : List A) → count_if p xs ≤ length xs
  count-le-length p [] = omega arith
  count-le-length p (x ∷ xs) = ground (arith, count-le-length p xs)
