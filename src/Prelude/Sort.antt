-- ===== src/Prelude/Sort.antt =====
-- `sorted(xs, key=...)`, for an order on the keys that is total.
use mathlib.Core.Path.{◌≡◌, refl, ap₂, ◌∙◌}
use mathlib.Core.Logic.{◌⊎◌, ∥∥₁_elim}
use mathlib.Core.Bool.{Bool, true}
use mathlib.Core.HLevel.{hedberg}
use mathlib.Core.List.{List, [], ◌∷◌, Perm, Permᴰ}
use native.Mathlib.Omega.{arith}
use testing_hq.Prelude.Tests.{if◌then◌else◌}

module _ {A : Type 0} (leb : A → A → Bool) where
  unfoldable pub insert_by : A → List A → List A
  insert_by a [] = a ∷ []
  insert_by a (b ∷ bs) = if leb a b then a ∷ b ∷ bs else b ∷ insert_by a bs

  unfoldable pub sort_by : List A → List A
  unfolding insert_by
  sort_by [] = []
  sort_by (a ∷ rest) = insert_by a (sort_by rest)

pub record IsOrder {A : Type 0} (leb : A → A → Bool) : Type 0 where
  pub total : (a b : A) → (leb a b ≡ true) ⊎ (leb b a ≡ true)
  pub antisymm : (a b : A) → leb a b ≡ true → leb b a ≡ true → a ≡ b
  pub transitive : (a b c : A) → leb a b ≡ true → leb b c ≡ true → leb a c ≡ true

module _ {A : Type 0} (leb : A → A → Bool) (o : IsOrder leb) where
  insert_by_comm :
      (a b : A) (l : List A)
      → insert_by leb a (insert_by leb b l) ≡ insert_by leb b (insert_by leb a l)
  unfolding insert_by
  insert_by_comm a b [] = ground (arith, o.total a b, o.antisymm a b)
  insert_by_comm a b (c ∷ l) = ground (
    arith,
    o.total a b,
    o.antisymm a b,
    o.transitive a b c,
    o.transitive b a c,
    insert_by_comm a b l,
  )

  sort_by-permᴰ : {xs ys : List A} → Permᴰ xs ys → sort_by leb xs ≡ sort_by leb ys
  unfolding sort_by
  sort_by-permᴰ Permᴰ.nil = refl
  sort_by-permᴰ (Permᴰ.cons e p) = ap₂ (insert_by leb) e (sort_by-permᴰ p)
  sort_by-permᴰ (Permᴰ.swap {a = a} {b = b} {l = l} e d) =
      insert_by_comm a b (sort_by leb l)
      ∙ ap₂ (λ x y. insert_by leb x (insert_by leb y (sort_by leb l))) d e
  sort_by-permᴰ (Permᴰ.trans p q) = sort_by-permᴰ p ∙ sort_by-permᴰ q

  -- Two lists with the same elements, in any order, sort to the same list.
  pub sort_by-perm : Discrete A → (xs ys : List A) → Perm xs ys → sort_by leb xs ≡ sort_by leb ys
  sort_by-perm dec xs ys p = ∥∥₁_elim p (hedberg (hlevel dec) _ _) sort_by-permᴰ
