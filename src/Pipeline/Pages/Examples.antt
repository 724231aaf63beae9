-- ===== src/Pipeline/Pages/Examples.antt =====
-- A store of five records that serves them in pages of two.
use testing_hq.Prelude.{ℕ, zero, suc, ◌≡◌, refl, true, false, some, List, [], ◌∷◌, arith}
use testing_hq.Pipeline.Pages.{counted, Asked, raises, brings, collected, collect}
use testing_hq.Pipeline.Pages.Whole.{page_at, served, collect_whole}

abbrev stored : List ℕ
stored = 10 ∷ 11 ∷ 12 ∷ 13 ∷ 14 ∷ []

abbrev store : ℕ → ℕ → Asked ℕ ℕ
store url zero = raises
store url (suc n) = brings (served (page_at 2 n stored))

collect_whole_example : collect 2 (counted true) false store 4 0 ≡ collected stored false (some 200)
collect_whole_example =
    collect_whole 2 true false store 2 (omega arith) (λ h. refl) 4 0 stored (λ n. refl)
      (omega arith)
