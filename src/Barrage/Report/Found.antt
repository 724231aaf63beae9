-- ===== src/Barrage/Report/Found.antt =====
-- Which bucket the knee is.
use testing_hq.Prelude.{
  ℕ, zero, suc, ◌+◌, ◌<◌, ◌≡◌, refl, sym, subst, Bool, true, false, ◌&&◌, Option, none, some, List,
  [], ◌∷◌, arith, length, take, all, leb, ltb, nat_beq, if◌then◌else◌,
}
use testing_hq.Barrage.Run.{place}
use testing_hq.Barrage.Report.Buckets.{Bucket}
use testing_hq.Barrage.Report.Knee.{
  Knobs, Reason, Knee, held, index_error, knee, is_bad, knee_at, verdicts, first_window, find_knee,
}

-- Whether the verdicts from a place on begin with so many bad ones.
abbrev pub bad_run : ℕ → ℕ → List (Option Reason) → Bool
bad_run n zero vs = leb n (length vs) && all is_bad (take n vs)
bad_run n (suc k) [] = nat_beq n 0
bad_run n (suc k) (v ∷ vs) = bad_run n k vs

-- What a knee says of the verdicts: a run of bad buckets begins at its place, none begins before, and
-- its reason is the verdict there; where there is none, no run begins anywhere.
abbrev pub Explains : ℕ → ℕ → List (Option Reason) → Knee → Type 0
Explains n from vs held = (j : ℕ) → bad_run n j vs ≡ false
Explains n from vs index_error = ⊥
Explains n from vs (knee k reason) =
    (i : ℕ) × (k ≡ from + i)
    × (place i vs ≡ some (some reason))
    × (bad_run n i vs ≡ true)
    × ((j : ℕ) → j < i → bad_run n j vs ≡ false)

too_short : (n j : ℕ) (vs : List (Option Reason)) → length vs < n → bad_run n j vs ≡ false
too_short n zero vs h = ground arith
too_short n (suc j) [] h = ground arith
too_short n (suc j) (v ∷ vs) h = too_short n j vs (omega arith)

no_run :
    (n : ℕ) (v : Option Reason) (vs : List (Option Reason)) (i : ℕ)
    → bad_run n 0 (v ∷ vs) ≡ false
    → ((j : ℕ) → j < i → bad_run n j vs ≡ false)
    → (j : ℕ) → j < suc i
    → bad_run n j (v ∷ vs) ≡ false
no_run n v vs i h e zero l = h
no_run n v vs i h e (suc j) l = e j (omega (arith, l))

none_at_all :
    (n : ℕ) (v : Option Reason) (vs : List (Option Reason))
    → bad_run n 0 (v ∷ vs) ≡ false
    → ((j : ℕ) → bad_run n j vs ≡ false)
    → (j : ℕ) → bad_run n j (v ∷ vs) ≡ false
none_at_all n v vs h e zero = h
none_at_all n v vs h e (suc j) = e j

-- One place further on.
shift :
    (n from : ℕ) (v : Option Reason) (vs : List (Option Reason)) (r : Knee)
    → bad_run n 0 (v ∷ vs) ≡ false
    → Explains n (suc from) vs r
    → Explains n from (v ∷ vs) r
unfolding place
shift n from v vs held h e = none_at_all n v vs h e
shift n from v vs index_error h e = e
shift n from v vs (knee k reason) h (i, at, here, bad, before) =
    (suc i, omega (arith, at), here, bad, no_run n v vs i h before)

starts_here :
    (m from : ℕ) (v : Option Reason) (vs : List (Option Reason))
    → bad_run (suc m) 0 (v ∷ vs) ≡ true
    → Explains (suc m) from (v ∷ vs) (knee_at from (take (suc m) (v ∷ vs)))
unfolding place
starts_here m from none vs h = let no : ⊥ = ground (arith, h) in elim no [ ]
starts_here m from (some reason) vs h =
    (0, omega arith, refl, h, λ j l. let no : ⊥ = omega (arith, l) in elim no [ ])

window_cases :
    (n from : ℕ) (v : Option Reason) (vs : List (Option Reason)) (short bad : Bool)
    → ltb (length (v ∷ vs)) n ≡ short
    → all is_bad (take n (v ∷ vs)) ≡ bad
    → first_window n from (v ∷ vs) ≡ (
        if short
        then held
        else if bad
        then knee_at from (take n (v ∷ vs))
        else first_window n (suc from) vs)
unfolding first_window
window_cases n from v vs short bad s b = ground (arith, s, b)

window_split :
    (m from : ℕ) (v : Option Reason) (vs : List (Option Reason)) (short bad : Bool)
    → ltb (length (v ∷ vs)) (suc m) ≡ short
    → all is_bad (take (suc m) (v ∷ vs)) ≡ bad
    → Explains (suc m) (suc from) vs (first_window (suc m) (suc from) vs)
    → Explains (suc m) from (v ∷ vs) (
        if short
        then held
        else if bad
        then knee_at from (take (suc m) (v ∷ vs))
        else first_window (suc m) (suc from) vs)
window_split m from v vs true bad s b e = λ j. too_short (suc m) j (v ∷ vs) (ground (arith, s))
window_split m from v vs false true s b e = starts_here m from v vs (ground (arith, s, b))
window_split m from v vs false false s b e =
    shift (suc m) from v vs (first_window (suc m) (suc from) vs) (ground (arith, s, b)) e

window_none : (m from : ℕ) → first_window (suc m) from [] ≡ held
unfolding first_window
window_none m from = ground arith

window-Explains :
    (m from : ℕ) (vs : List (Option Reason))
    → Explains (suc m) from vs (first_window (suc m) from vs)
window-Explains m from [] =
    subst (λ r. Explains (suc m) from [] r) (sym (window_none m from))
      (λ j. too_short (suc m) j [] (omega arith))
window-Explains m from (v ∷ vs) =
    subst (λ r. Explains (suc m) from (v ∷ vs) r)
      (sym (
        window_cases (suc m) from v vs (ltb (length (v ∷ vs)) (suc m))
          (all is_bad (take (suc m) (v ∷ vs))) refl refl))
      (window_split m from v vs (ltb (length (v ∷ vs)) (suc m)) (all is_bad (take (suc m) (v ∷ vs)))
        refl refl (window-Explains m (suc from) vs))

positive-Explains :
    (n : ℕ) (vs : List (Option Reason)) → 0 < n → Explains n 0 vs (first_window n 0 vs)
positive-Explains zero vs h = let no : ⊥ = omega (arith, h) in elim no [ ]
positive-Explains (suc m) vs h = window-Explains m 0 vs

-- Where the persistence is above 0, the knee is at the first place from which so many buckets in a row
-- are bad, with the reason of the bucket there; there is none exactly where no such run begins.
pub find_knee-Explains :
    (o : Knobs) (buckets : List Bucket)
    → 0 < o.persistence
    → Explains o.persistence 0 (verdicts o buckets) (find_knee o buckets)
unfolding find_knee
find_knee-Explains o buckets h = positive-Explains o.persistence (verdicts o buckets) h
