-- ===== src/Compare/Balance.antt =====
-- The theorems on `compare`: its counts add up, and reversing the comparison reverses them.
use testing_hq.Prelude.{
  ℕ, ◌+◌, ◌<◌, ◌≡◌, ◌↔◌, ◌⊎◌, refl, subst, ap, ◌∙◌, sym, Bool, true, false, ◌&&◌, Option, none,
  some, List, [], ◌∷◌, arith, length, count_if, count_if_ext, length-keep_if, is_empty, is_some,
  if◌then◌else◌, inl, inr,
}
use testing_hq.Prelude.Text.{Text}
use testing_hq.Prelude.Dict.{Dict, keys, lookup, contains, contains-eq-is_some}
use testing_hq.Prelude.Distinct.{contains-eq-mem, count_members, keep_if_nonempty}
use testing_hq.Core.Report.{Record, Outcome, classify_record, outcome_beq_iff, ok}
use testing_hq.Compare.Align.{Key, key_eq, record_key, align, align-Distinct, first_key}
use testing_hq.Compare.Diff.{Warning, Artifact, section_of}
use testing_hq.Compare.Loop.{
  shared_keys, compare_keys, empty_tally, Report, Comparison, compared, nothing_to_compare, compare,
}
use testing_hq.Compare.Direction.{
  regresses, improves, shifts, stays, moved, moved_at, number_moved, number_moved_swap,
  shared_moved, keys_sizes,
}

-- The records of an artifact by key.
abbrev pub by_key : Artifact → Dict Key Record
by_key a = (align a.records).keyed

abbrev pub shared : Artifact → Artifact → List Key
shared a b = shared_keys (by_key a) (by_key b)

pub record Counts (a b : Artifact) (r : Report) : Type 0 where
  pub regressions_eq : r.regressions.count ≡ number_moved regresses (by_key a) (by_key b)
  pub fixes_eq : r.fixes.count ≡ number_moved improves (by_key a) (by_key b)
  pub changes_eq : r.changes.count ≡ number_moved shifts (by_key a) (by_key b)
  pub unchanged_eq : r.unchanged ≡ number_moved stays (by_key a) (by_key b)
  pub compared_eq : r.records_compared ≡ length (shared a b)
  pub regressed_iff : (r.regressed ≡ true) ↔ (0 < number_moved regresses (by_key a) (by_key b))

-- Every shared key moved in exactly one of the four directions.
four_ways :
    (a b : Dict Key Record) (ks : List Key)
    → count_if (moved_at regresses a b) ks
        + count_if (moved_at improves a b) ks
        + count_if (moved_at shifts a b) ks
        + count_if (moved_at stays a b) ks
      ≡ count_if (λ k. is_some (lookup k a) && is_some (lookup k b)) ks
four_ways a b [] = refl
four_ways a b (k ∷ ks) = ground (arith, four_ways a b ks, one_way (lookup k a) (lookup k b))
  where
    add : Bool → ℕ → ℕ
    add b n = if b then n + 1 else n

    one_way :
        (x y : Option Record)
        → add
            (moved regresses x y)
            (add (moved improves x y) (add (moved shifts x y) (add (moved stays x y) 0)))
          ≡ add (is_some x && is_some y) 0
    one_way (some x) (some y) = ground (
      arith,
      outcome_beq_iff (classify_record x) ok,
      outcome_beq_iff (classify_record y) ok,
      outcome_beq_iff (classify_record x) (classify_record y),
    )
    one_way (some x) none = refl
    one_way none y = refl

length-shared :
    (a b : Dict Key Record)
    → length (shared_keys a b)
      ≡ count_if (λ k. is_some (lookup k a) && is_some (lookup k b)) (keys a)
unfolding shared_keys
length-shared a b =
    length-keep_if (λ k. contains k b) (keys a)
    ∙ sym (count_members (λ k. contains k b) (keys a))
    ∙ count_if_ext _ _ (keys a)
        (λ k. rw (sym (contains-eq-mem k a), contains-eq-is_some k a, contains-eq-is_some k b))

total_moved : (a b : Dict Key Record) → ℕ
total_moved a b =
    number_moved regresses a b
    + number_moved improves a b
    + number_moved shifts a b
    + number_moved stays a b

total_moved-eq-length : (a b : Dict Key Record) → total_moved a b ≡ length (shared_keys a b)
unfolding total_moved
total_moved-eq-length a b = four_ways a b (keys a) ∙ sym (length-shared a b)

-- The counts from `b` to `a`, by those from `a` to `b`.
record Reversed (a b : Dict Key Record) : Type 0 where
  regress : number_moved regresses b a ≡ number_moved improves a b
  improve : number_moved improves b a ≡ number_moved regresses a b
  shift : number_moved shifts b a ≡ number_moved shifts a b
  stay : number_moved stays b a ≡ number_moved stays a b
  size : length (shared_keys b a) ≡ length (shared_keys a b)

flip_facts :
    (x y : Outcome)
    → (regresses x y ≡ improves y x)
      × (improves x y ≡ regresses y x)
      × (shifts x y ≡ shifts y x)
      × (stays x y ≡ stays y x)
flip_facts x y =
    ground
      (arith, outcome_beq_iff x ok, outcome_beq_iff y ok, outcome_beq_iff x y, outcome_beq_iff y x)

reversed : (a b : Artifact) → Reversed (by_key a) (by_key b)
unfolding total_moved
reversed a b =
    let da = align-Distinct a.records in
    let db = align-Distinct b.records in
    let x = by_key a in
    let y = by_key b in
    let r = number_moved_swap regresses improves y x (λ u v. (flip_facts u v).0) db da in
    let i = number_moved_swap improves regresses y x (λ u v. (flip_facts u v).1) db da in
    let s = number_moved_swap shifts shifts y x (λ u v. (flip_facts u v).2) db da in
    let t = number_moved_swap stays stays y x (λ u v. (flip_facts u v).3) db da in
    record {
      regress = r;
      improve = i;
      shift = s;
      stay = t;
      size = omega (arith, total_moved-eq-length x y, total_moved-eq-length y x, r, i, s, t);
    }

nonempty_iff {ℓ} : {A : Type ℓ} (xs : List A) → (is_empty xs ≡ false) ↔ (0 < length xs)
nonempty_iff xs = ground arith

-- Nothing moves between a dict and itself.
still :
    (p : Outcome → Outcome → Bool) (a : Dict Key Record) (ks : List Key)
    → ((x : Outcome) → p x x ≡ false)
    → count_if (moved_at p a a) ks ≡ 0
still p a [] h = refl
still p a (k ∷ ks) h = ground (arith, still p a ks h, at_key (lookup k a))
  where
    at_key : (r : Option Record) → moved p r r ≡ false
    at_key none = refl
    at_key (some r) = h (classify_record r)

still_facts :
    (x : Outcome) → (regresses x x ≡ false) × (improves x x ≡ false) × (shifts x x ≡ false)
still_facts x = ground (arith, outcome_beq_iff x ok, outcome_beq_iff x x)

self_nonempty :
    (x : Record) (xs : List Record) → let d = (align (x ∷ xs)).keyed in 0 < length (shared_keys d d)
unfolding shared_keys
self_nonempty x xs =
    let d = (align (x ∷ xs)).keyed in
    let k = record_key x 0 in
    let (r, e) = first_key x xs in
    let c : contains k d ≡ true = contains-eq-is_some k d ∙ ap is_some e in
    (nonempty_iff _).0
      (keep_if_nonempty (λ j. contains j d) k (keys d) (sym (contains-eq-mem k d) ∙ c) c)

module _ (lower : Text → Text) where
  Comparison-cases :
      (c : Comparison)
      → ((r : Report) × (c ≡ compared r))
        ⊎ ((m n : ℕ) × (ws : List Warning) × (c ≡ nothing_to_compare m n ws))
  Comparison-cases (compared r) = inl (r, refl)
  Comparison-cases (nothing_to_compare m n ws) = inr (m, n, ws, refl)

  nothing_shared :
      (a b : Artifact) (m n : ℕ) (ws : List Warning)
      → compare lower a b ≡ nothing_to_compare m n ws
      → length (shared a b) ≡ 0
  unfolding compare
  nothing_shared a b m n ws h = ground arith

  something_shared :
      (a b : Artifact) (r : Report) → compare lower a b ≡ compared r → 0 < length (shared a b)
  unfolding compare
  something_shared a b r h = ground arith

  not_regressed :
      (a b : Artifact) (r : Report)
      → Counts a b r
      → number_moved regresses (by_key a) (by_key b) ≡ 0
      → r.regressed ≡ false
  not_regressed a b r c e = ground arith

  -- The report that `compare` makes when a key is shared.
  pub compare-Counts : (a b : Artifact) (r : Report) → compare lower a b ≡ compared r → Counts a b r
  unfolding compare section_of
  compare-Counts a b r h =
      let t = compare_keys lower (by_key a) (by_key b) (shared a b) empty_tally in
      ground (
        arith,
        keys_sizes lower (by_key a) (by_key b) (shared a b) empty_tally,
        shared_moved regresses (by_key a) (by_key b),
        shared_moved improves (by_key a) (by_key b),
        shared_moved shifts (by_key a) (by_key b),
        shared_moved stays (by_key a) (by_key b),
      )

  -- The four counts of a report add up to the number of records it compared.
  pub counts_add_up :
      (a b : Artifact) (r : Report)
      → compare lower a b ≡ compared r
      → r.regressions.count + r.fixes.count + r.changes.count + r.unchanged ≡ r.records_compared
  counts_add_up a b r h =
      let c = compare-Counts a b r h in
      omega (
        arith,
        c,
        four_ways (by_key a) (by_key b) (keys (by_key a)),
        length-shared (by_key a) (by_key b),
      )

  compare-shared :
      (a b : Artifact) → 0 < length (shared a b) → (r : Report) × (compare lower a b ≡ compared r)
  compare-shared a b h = elim (Comparison-cases (compare lower a b)) [
    | inl found ↦ found
    | inr (m, n, ws, e) ↦ absurd (omega (arith, nothing_shared a b m n ws e))
  ]

  -- Reversing a comparison that found records to compare succeeds too. It turns the regressions
  -- into fixes and the fixes into regressions, and keeps the other counts.
  pub reverse_direction :
      (a b : Artifact) (r : Report)
      → compare lower a b ≡ compared r
      → (r' : Report) × (compare lower b a ≡ compared r')
        × (r'.fixes.count ≡ r.regressions.count)
        × (r'.regressions.count ≡ r.fixes.count)
        × (r'.changes.count ≡ r.changes.count)
        × (r'.unchanged ≡ r.unchanged)
        × (r'.records_compared ≡ r.records_compared)
  reverse_direction a b r h =
      let v = reversed a b in
      let (r', e) = compare-shared b a (omega (arith, v.size, something_shared a b r h)) in
      let c = compare-Counts a b r h in
      let c' = compare-Counts b a r' e in
      (
        r',
        e,
        c'.fixes_eq ∙ v.improve ∙ sym c.regressions_eq,
        c'.regressions_eq ∙ v.regress ∙ sym c.fixes_eq,
        c'.changes_eq ∙ v.shift ∙ sym c.changes_eq,
        c'.unchanged_eq ∙ v.stay ∙ sym c.unchanged_eq,
        c'.compared_eq ∙ v.size ∙ sym c.compared_eq,
      )

  -- A run compared with itself has no regression, no fix and no change: every record it shares
  -- with itself is unchanged. A run with a record can be so compared.
  pub self_compare :
      (a : Artifact) (x : Record) (xs : List Record)
      → a.records ≡ x ∷ xs
      → (r : Report) × (compare lower a a ≡ compared r)
        × (r.regressed ≡ false)
        × (r.fixes.count ≡ 0)
        × (r.changes.count ≡ 0)
        × (r.unchanged ≡ r.records_compared)
  self_compare a x xs h =
      let d = by_key a in
      let full =
        subst (λ rs. 0 < length (shared_keys (align rs).keyed (align rs).keyed)) (sym h)
          (self_nonempty x xs) in
      let (r, e) = compare-shared a a full in
      let c = compare-Counts a a r e in
      let nr = still regresses d (keys d) (λ o. (still_facts o).0) in
      let ni = still improves d (keys d) (λ o. (still_facts o).1) in
      let ns = still shifts d (keys d) (λ o. (still_facts o).2) in
      (
        r,
        e,
        not_regressed a a r c nr,
        c.fixes_eq ∙ ni,
        c.changes_eq ∙ ns,
        omega
            (arith, counts_add_up a a r e, c.regressions_eq, nr, c.fixes_eq, ni, c.changes_eq, ns),
      )
