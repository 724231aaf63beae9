-- ===== src/Pipeline/Loop/Counted.antt =====
-- What of a listing is new, by a count of the records before.
use testing_hq.Prelude.{
  ℕ, ◌+◌, ◌-◌, ◌≡◌, refl, List, [], ◌∷◌, arith, map, count_if, if◌then◌else◌, ◌==◌, leb, nat_beq,
  Bool-cases, inl, inr,
}
use testing_hq.Prelude.Text.{Text, text_eq, text_beq_iff}
use testing_hq.Prelude.Dict.{Dict, insert, lookup, lookup-insert}
use testing_hq.Pipeline.Readback.{Readback}
use testing_hq.Pipeline.Steady.{count_of, counts_from}
use testing_hq.Pipeline.Steady.Pairs.{bump, count_of-bump}
use testing_hq.Pipeline.Loop.Outbound.{new_from, new_records}

abbrev pub times_in : Text → List Text → ℕ
times_in k ls = count_if (λ l. l == k) ls

count_of-counts_from :
    (k : Text) (d : Dict Text ℕ) (ls : List Text)
    → count_of k (counts_from d ls) ≡ times_in k ls + count_of k d
unfolding counts_from
count_of-counts_from k d [] = omega arith
count_of-counts_from k d (l ∷ ls) =
    ground (arith, count_of-counts_from k (bump l d) ls, count_of-bump k l d)

count_of-insert :
    (k l : Text) (n : ℕ) (d : Dict Text ℕ)
    → count_of k (insert l n d) ≡ (if l == k then n else count_of k d)
unfolding count_of
count_of-insert k l n d = ground (arith, lookup-insert l k n d)

count_of_none : (k : Text) → count_of k [] ≡ 0
unfolding count_of lookup
count_of_none k = refl

module _ (key : Readback → Text) where
  -- How many records have that key.
  abbrev pub times_key : Text → List Readback → ℕ
  times_key k rs = count_if (λ (r : Readback). key r == k) rs

  times_in-map : (k : Text) (rs : List Readback) → times_in k (map key rs) ≡ times_key k rs
  times_in-map k [] = refl
  times_in-map k (r ∷ rs) = ground (arith, times_in-map k rs)

  -- The records of a listing of whose key there are, among the earlier ones of the listing, as many
  -- as there were before.
  abbrev pub arrived : List Readback → List Readback → List Readback → List Readback
  arrived before earlier [] = []
  arrived before earlier (r ∷ rs) =
      let rest = arrived before (r ∷ earlier) rs in
      if leb (times_key (key r) before) (times_key (key r) earlier) then r ∷ rest else rest

  arrived-new_from :
      (before earlier rs : List Readback) (d : Dict Text ℕ)
      → ((k : Text) → count_of k d ≡ times_key k before - times_key k earlier)
      → new_from key d rs ≡ arrived before earlier rs
  unfolding new_from
  arrived-new_from before earlier [] d h = refl
  arrived-new_from before earlier (r ∷ rs) d h =
      elim (Bool-cases (nat_beq (count_of (key r) d) 0)) [
        | inl e ↦ ground (
          arith,
          e,
          h (key r),
          arrived-new_from before (r ∷ earlier) rs d
              (λ k. ground (arith, e, h k, h (key r), text_beq_iff (key r) k)),
        )
        | inr e ↦ ground (
          arith,
          e,
          h (key r),
          arrived-new_from before (r ∷ earlier) rs (insert (key r) (count_of (key r) d - 1) d) (λ k.
              ground (
                arith,
                e,
                h k,
                h (key r),
                text_beq_iff (key r) k,
                count_of-insert k (key r) (count_of (key r) d - 1) d,
              )),
        )
      ]

  pub arrived-new_records :
      (after before : List Readback) → new_records key after before ≡ arrived before [] after
  unfolding new_records
  arrived-new_records after before =
      arrived-new_from before [] after (counts_from [] (map key before)) (λ k.
        omega (
          arith,
          count_of-counts_from k [] (map key before),
          times_in-map k before,
          count_of_none k,
        ))
