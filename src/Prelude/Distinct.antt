-- ===== src/Prelude/Distinct.antt =====
-- Lists without repetition, such as the keys of a dict, and counting over them.
use Prim.Native.Nat.{◌+◌}
use mathlib.Core.Path.{◌≡◌, refl, sym}
use mathlib.Core.Bool.{Bool, true, false, ◌&&◌}
use mathlib.Core.List.{List, [], ◌∷◌}
use native.Mathlib.Omega.{arith}
use testing_hq.Prelude.Tests.{Eq, ◌==◌, if◌then◌else◌}
use testing_hq.Prelude.Lists.{count_if, all, is_empty, keep_if}
use testing_hq.Prelude.Dict.{Dict, keys, contains, insert}

module _ {K : Type 0} ⦃e : Eq K⦄ where
  -- `k in ks`
  abbrev pub mem : K → List K → Bool
  mem k [] = false
  mem k (j ∷ ks) = if j == k then true else mem k ks

  abbrev pub Distinct : List K → Type 0
  Distinct [] = Unit
  Distinct (k ∷ ks) = (mem k ks ≡ false) × Distinct ks

  pub contains-eq-mem : {V : Type 0} (k : K) (d : Dict K V) → contains k d ≡ mem k (keys d)
  unfolding contains
  contains-eq-mem k [] = refl
  contains-eq-mem k ((j, v) ∷ d) = ground (arith, contains-eq-mem k d)

  mem-insert :
      {V : Type 0} (j k : K) (v : V) (d : Dict K V)
      → mem j (keys (insert k v d)) ≡ (if k == j then true else mem j (keys d))
  unfolding insert
  mem-insert j k v [] = refl
  mem-insert j k v ((i, w) ∷ d) =
      ground (arith, e.equals_iff k j, e.equals_iff i k, e.equals_iff i j, mem-insert j k v d)

  pub insert-Distinct :
      {V : Type 0} (k : K) (v : V) (d : Dict K V)
      → Distinct (keys d)
      → Distinct (keys (insert k v d))
  unfolding insert
  insert-Distinct k v [] h = (refl, tt)
  insert-Distinct k v ((i, w) ∷ d) h =
      ground
        (arith, e.equals_iff i k, e.equals_iff k i, mem-insert i k v d, insert-Distinct k v d h.1)

module _ {K : Type 0} ⦃e : Eq K⦄ (p : K → Bool) where
  count_none : (x : K) (ys : List K) → mem x ys ≡ false → count_if (λ y. (x == y) && p y) ys ≡ 0
  count_none x [] h = refl
  count_none x (y ∷ ys) h = ground (arith, e.equals_iff x y, e.equals_iff y x, count_none x ys)

  count_one :
      (x : K) (ys : List K)
      → Distinct ys
      → count_if (λ y. (x == y) && p y) ys ≡ (if mem x ys && p x then 1 else 0)
  count_one x [] h = refl
  count_one x (y ∷ ys) h =
      ground (arith, e.equals_iff x y, e.equals_iff y x, count_one x ys h.1, count_none x ys)

  count_split :
      (x : K) (xs ys : List K)
      → mem x xs ≡ false
      → count_if (λ y. mem y (x ∷ xs) && p y) ys
        ≡ count_if (λ y. (x == y) && p y) ys + count_if (λ y. mem y xs && p y) ys
  count_split x xs [] h = omega arith
  count_split x xs (y ∷ ys) h = ground (arith, e.equals_iff x y, count_split x xs ys h)

  count_nil : (ys : List K) → count_if (λ y. mem y [] && p y) ys ≡ 0
  count_nil [] = refl
  count_nil (y ∷ ys) = count_nil ys

  -- Counting the common members of two lists from either side gives the same number.
  pub count_common :
      (xs ys : List K)
      → Distinct xs
      → Distinct ys
      → count_if (λ x. mem x ys && p x) xs ≡ count_if (λ y. mem y xs && p y) ys
  count_common [] ys hx hy = sym (count_nil ys)
  count_common (x ∷ xs) ys hx hy =
      ground (arith, count_split x xs ys hx.0, count_one x ys hy, count_common xs ys hx.1 hy)

module _ {K : Type 0} ⦃e : Eq K⦄ where
  all-mem_weaken :
      (x : K) (ks zs : List K) → all (λ k. mem k ks) zs ≡ true → all (λ k. mem k (x ∷ ks)) zs ≡ true
  all-mem_weaken x ks [] h = refl
  all-mem_weaken x ks (z ∷ zs) h = ground (arith, all-mem_weaken x ks zs)

  pub all-mem : (ks : List K) → all (λ k. mem k ks) ks ≡ true
  all-mem [] = refl
  all-mem (k ∷ ks) = ground (arith, e.equals_iff k k, all-mem_weaken k ks ks, all-mem ks)

  count_all :
      (p q : K → Bool) (zs : List K)
      → all p zs ≡ true
      → count_if (λ k. p k && q k) zs ≡ count_if q zs
  count_all p q [] h = refl
  count_all p q (z ∷ zs) h = ground (arith, count_all p q zs)

  -- Membership in the list itself adds nothing to a count over it.
  pub count_members :
      (p : K → Bool) (ks : List K) → count_if (λ k. mem k ks && p k) ks ≡ count_if p ks
  count_members p ks = count_all (λ k. mem k ks) p ks (all-mem ks)

  pub keep_if_nonempty :
      (p : K → Bool) (k : K) (ks : List K)
      → mem k ks ≡ true
      → p k ≡ true
      → is_empty (keep_if p ks) ≡ false
  keep_if_nonempty p k [] h hp = cc
  keep_if_nonempty p k (j ∷ ks) h hp = ground (arith, e.equals_iff j k, keep_if_nonempty p k ks)
