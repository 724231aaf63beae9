-- ===== src/Pipeline/Steady/Majority.antt =====
-- The majority label is one of the most common.
use testing_hq.Prelude.{
  ℕ, ◌+◌, ◌≤◌, ◌≡◌, refl, ap, Bool, true, false, Option, some, List, [], ◌∷◌, arith, if◌then◌else◌,
  ◌==◌,
}
use testing_hq.Prelude.Text.{Text, text_eq, text_beq_iff}
use testing_hq.Prelude.Dict.{Dict, keys, lookup}
use testing_hq.Prelude.Distinct.{mem, Distinct, insert-Distinct}
use testing_hq.Pipeline.Steady.{
  known, count_of, counts_from, before, smallest, majority_in, majority_label, one_if,
}
use testing_hq.Pipeline.Steady.Pairs.{bump, count_of-bump}

-- How often a label is among the known ones.
abbrev pub times : Text → List Text → ℕ
times x [] = 0
times x (l ∷ ls) = one_if (l == x) + times x ls

count_of-counts_from :
    (x : Text) (d : Dict Text ℕ) (ls : List Text)
    → count_of x (counts_from d ls) ≡ count_of x d + times x ls
unfolding counts_from
count_of-counts_from x d [] = omega arith
count_of-counts_from x d (l ∷ ls) =
    omega (arith, count_of-counts_from x (bump l d) ls, count_of-bump x l d)

counts_from-Distinct :
    (d : Dict Text ℕ) (ls : List Text) → Distinct (keys d) → Distinct (keys (counts_from d ls))
unfolding counts_from
counts_from-Distinct d [] h = h
counts_from-Distinct d (l ∷ ls) h =
    counts_from-Distinct (bump l d) ls (insert-Distinct l (count_of l d + 1) d h)

-- No entry of a dict has a larger count.
abbrev AtMost : ℕ → Dict Text ℕ → Type 0
AtMost n [] = Unit
AtMost n ((l, c) ∷ d) = (c ≤ n) × AtMost n d

AtMost-count_of : (n : ℕ) (x : Text) (d : Dict Text ℕ) → AtMost n d → count_of x d ≤ n
unfolding count_of lookup
AtMost-count_of n x [] h = omega arith
AtMost-count_of n x ((l, c) ∷ d) h = ground (arith, AtMost-count_of n x d)

AtMost-weaken : (n m : ℕ) (d : Dict Text ℕ) → n ≤ m → AtMost n d → AtMost m d
AtMost-weaken n m [] l h = tt
AtMost-weaken n m ((k, c) ∷ d) l h = (omega (arith, h.0), AtMost-weaken n m d l h.1)

AtMost_step :
    (b : Bool) (p q : Text × ℕ) (d : Dict Text ℕ)
    → (b ≡ true → q.1 ≤ p.1)
    → (b ≡ false → p.1 ≤ q.1)
    → ((if b then p else q).1 ≤ (smallest (if b then p else q) d).1)
    → (p.1 ≤ (smallest (if b then p else q) d).1) × (q.1 ≤ (smallest (if b then p else q) d).1)
AtMost_step true p q d ht hf h = (h, omega (arith, ht refl))
AtMost_step false p q d ht hf h = (omega (arith, hf refl), h)

smallest-AtMost :
    (p : Text × ℕ) (d : Dict Text ℕ) → (p.1 ≤ (smallest p d).1) × AtMost (smallest p d).1 d
unfolding smallest
smallest-AtMost p [] = (omega arith, tt)
smallest-AtMost p (q ∷ d) =
    let (chosen, rest) = smallest-AtMost (if before p q then p else q) d in
    let (first, second) =
      AtMost_step (before p q) p q d (λ h. ground arith) (λ h. ground arith) chosen in
    (first, (second, rest))

-- The count of an entry is the dict's for its label.
abbrev Counted : Dict Text ℕ → Text × ℕ → Type 0
Counted d p = count_of p.0 d ≡ p.1

abbrev AllCounted : Dict Text ℕ → Dict Text ℕ → Type 0
AllCounted d [] = Unit
AllCounted d (p ∷ ps) = Counted d p × AllCounted d ps

choose-Counted :
    (b : Bool) (d : Dict Text ℕ) (p q : Text × ℕ)
    → Counted d p
    → Counted d q
    → Counted d (if b then p else q)
choose-Counted true d p q hp hq = hp
choose-Counted false d p q hp hq = hq

smallest-Counted :
    (d : Dict Text ℕ) (p : Text × ℕ) (ps : Dict Text ℕ)
    → Counted d p
    → AllCounted d ps
    → Counted d (smallest p ps)
unfolding smallest
smallest-Counted d p [] hp hs = hp
smallest-Counted d p (q ∷ ps) hp hs =
    smallest-Counted d (if before p q then p else q) ps (choose-Counted (before p q) d p q hp hs.0)
      hs.1

Counted-cons :
    (l : Text) (c : ℕ) (d ps : Dict Text ℕ)
    → mem l (keys ps) ≡ false
    → AllCounted d ps
    → AllCounted ((l, c) ∷ d) ps
unfolding count_of lookup
Counted-cons l c d [] m h = tt
Counted-cons l c d (p ∷ ps) m h =
    ground (arith, text_beq_iff l p.0, text_beq_iff p.0 l, Counted-cons l c d ps)

Distinct-AllCounted : (d : Dict Text ℕ) → Distinct (keys d) → AllCounted d d
unfolding count_of lookup
Distinct-AllCounted [] h = tt
Distinct-AllCounted ((l, c) ∷ d) h =
    (ground (arith, text_beq_iff l l), Counted-cons l c d d h.0 (Distinct-AllCounted d h.1))

majority_in_max :
    (d : Dict Text ℕ) (m x : Text)
    → Distinct (keys d)
    → majority_in d ≡ some m
    → count_of x d ≤ count_of m d
unfolding majority_in
majority_in_max [] m x h e = cc
majority_in_max (p ∷ d) m x h e =
    let all = Distinct-AllCounted (p ∷ d) h in
    let found = smallest-Counted (p ∷ d) p d all.0 all.1 in
    let (first, rest) = smallest-AtMost p d in
    let most = AtMost-count_of (smallest p d).1 x (p ∷ d) (first, rest) in
    let same : (smallest p d).0 ≡ m = cc in
    omega (arith, most, found, ap (λ k. count_of k (p ∷ d)) same)

-- No label is more frequent than the majority label.
pub majority_most :
    (labels : List (Option Text)) (m x : Text)
    → majority_label labels ≡ some m
    → times x (known labels) ≤ times m (known labels)
unfolding majority_label count_of lookup
majority_most labels m x e =
    let ls = known labels in
    omega (
      arith,
      majority_in_max (counts_from [] ls) m x (counts_from-Distinct [] ls tt) e,
      count_of-counts_from x [] ls,
      count_of-counts_from m [] ls,
    )
