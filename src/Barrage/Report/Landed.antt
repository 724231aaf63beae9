-- ===== src/Barrage/Report/Landed.antt =====
-- Every sample of a run is in one bucket.
use testing_hq.Prelude.{
  ℕ, zero, suc, ◌+◌, ◌≤◌, ◌≡◌, refl, sym, ap, ◌∙◌, Bool, true, ◌&&◌, Option, none, List, [], ◌∷◌,
  ◌++◌, arith, length, keep_if, count_if, length-keep_if, leb, ltb, nat_beq, nat_beq_iff, nat_eq,
  if◌then◌else◌,
}
use testing_hq.Prelude.Dict.{Dict, lookup, insert, keys, lookup-insert}
use testing_hq.Barrage.Report.{Sample, sent, is_error}
use testing_hq.Barrage.Report.Planned.{sum_by, sum_from}
use testing_hq.Barrage.Report.Buckets.{
  Stage, Bucket, past_keys, Series, bucket_of, sent_at, or_empty, group, make_bucket, buckets_from,
  series_at, bucket_count, bucketize_from,
}

abbrev in_bucket : ℕ → ℕ → ℕ → Sample → Bool
in_bucket origin width k s = nat_beq (bucket_of origin width (sent_at s)) k

abbrev one_if : Bool → ℕ
one_if b = if b then 1 else 0

count-append :
    {A : Type 0} (p : A → Bool) (xs : List A) (x : A)
    → count_if p (xs ++ x ∷ []) ≡ count_if p xs + one_if (p x)
count-append p [] x = ground arith
count-append p (y ∷ ys) x = ground (arith, count-append p ys x)

-- What the group of a key holds.
count-group :
    (p : Sample → Bool) (origin width k : ℕ) (d : Dict ℕ (List Sample)) (samples : List Sample)
    → count_if p (or_empty (lookup k (group origin width d samples)))
      ≡ count_if p (or_empty (lookup k d))
        + count_if (λ s. in_bucket origin width k s && p s) samples
unfolding group
count-group p origin width k d [] = omega arith
count-group p origin width k d (s ∷ rest) =
    let j = bucket_of origin width (sent_at s) in
    let old = or_empty (lookup j d) in
    ground (
      arith,
      count-group p origin width k (insert j (old ++ s ∷ []) d) rest,
      lookup-insert j k (old ++ s ∷ []) d,
      count-append p old s,
      nat_beq_iff j k,
    )

-- A key that is there is below the end.
below_end :
    (k : ℕ) (d : Dict ℕ (List Sample)) (js : List ℕ)
    → past_keys (keys d ++ js) ≤ k
    → lookup k d ≡ none
unfolding lookup
below_end k [] js h = refl
below_end k ((j, v) ∷ d) js h = ground (arith, below_end k d js, h)

sum_from-zero : (k n : ℕ) → sum_from k n (λ j. 0) ≡ 0
sum_from-zero k zero = refl
sum_from-zero k (suc n) = omega (arith, sum_from-zero (suc k) n)

sum_from-add :
    (k n : ℕ) (f g : ℕ → ℕ) → sum_from k n (λ j. f j + g j) ≡ sum_from k n f + sum_from k n g
sum_from-add k zero f g = refl
sum_from-add k (suc n) f g = omega (arith, sum_from-add (suc k) n f g)

sum_from-one :
    (k n i : ℕ) (t : Bool)
    → sum_from k n (λ j. one_if (nat_beq i j && t)) ≡ one_if (t && (leb k i && ltb i (k + n)))
sum_from-one k zero i t = ground arith
sum_from-one k (suc n) i t = ground (arith, sum_from-one (suc k) n i t)

sum_from-ext : (k n : ℕ) (f g : ℕ → ℕ) → ((j : ℕ) → f j ≡ g j) → sum_from k n f ≡ sum_from k n g
sum_from-ext k zero f g h = refl
sum_from-ext k (suc n) f g h = omega (arith, h k, sum_from-ext (suc k) n f g h)

-- Samples counted key by key, where no key is n or more.
module _ (key : Sample → ℕ) (p : Sample → Bool) where
  abbrev with_key : ℕ → Sample → Bool
  with_key k s = nat_beq (key s) k && p s

  count-key :
      (n : ℕ) (samples : List Sample)
      → ((k : ℕ) → n ≤ k → count_if (with_key k) samples ≡ 0)
      → sum_from 0 n (λ k. count_if (with_key k) samples) ≡ count_if p samples
  count-key n [] h = sum_from-zero 0 n
  count-key n (s ∷ rest) h =
      sum_from-ext 0 n (λ k. count_if (with_key k) (s ∷ rest))
        (λ k. one_if (with_key k s) + count_if (with_key k) rest) (λ k. ground arith)
      ∙ sum_from-add 0 n (λ k. one_if (with_key k s)) (λ k. count_if (with_key k) rest)
      ∙ ground (
        arith,
        sum_from-one 0 n (key s) (p s),
        h (key s),
        nat_beq_iff (key s) (key s),
        count-key n rest (λ k l. ground (arith, h k l)),
      )

-- What a figure of the buckets adds up to.
module _ (b : Series) (f : Bucket → ℕ) (g : ℕ → ℕ)
    (h : (last k : ℕ) → f (make_bucket b last k) ≡ g k) where
  sum_by-buckets : (last k n : ℕ) → sum_by f (buckets_from b last k n) ≡ sum_from k n g
  unfolding buckets_from
  sum_by-buckets last k zero = refl
  sum_by-buckets last k (suc n) =
      omega (arith, h last k, sum_by-buckets (make_bucket b last k).expected (suc k) n)

count_every : {A : Type 0} (xs : List A) → length xs ≡ count_if (λ x. true) xs
count_every [] = refl
count_every (x ∷ xs) = ap suc (count_every xs)

make_bucket-count :
    (b : Series) (last k : ℕ)
    → (make_bucket b last k).count ≡ count_if (λ s. true) (or_empty (lookup k b.by_key))
unfolding make_bucket
make_bucket-count b last k = count_every (or_empty (lookup k b.by_key))

make_bucket-errors :
    (b : Series) (last k : ℕ)
    → (make_bucket b last k).errors ≡ count_if is_error (or_empty (lookup k b.by_key))
unfolding make_bucket
make_bucket-errors b last k = refl

module _ (samples : List Sample) (width origin : ℕ) (stages : List Stage)
    (hold_start : Option ℕ) where
  abbrev series : Series
  series = series_at samples width origin stages hold_start

  abbrev key_of : Sample → ℕ
  key_of s = bucket_of origin width (sent_at s)

  members-count :
      (p : Sample → Bool) (k : ℕ)
      → count_if p (or_empty (lookup k series.by_key))
        ≡ count_if (with_key key_of p k) (keep_if sent samples)
  unfolding series_at lookup
  members-count p k = count-group p origin width k [] (keep_if sent samples) ∙ omega arith

  ends : past_keys (keys series.by_key ++ keys series.dropped_by_key) ≤ bucket_count series
  unfolding bucket_count
  ends = ground arith

  none_behind :
      (p : Sample → Bool) (k : ℕ)
      → bucket_count series ≤ k
      → count_if (with_key key_of p k) (keep_if sent samples) ≡ 0
  none_behind p k h =
      sym (members-count p k)
      ∙ ap (λ o. count_if p (or_empty o))
          (below_end k series.by_key (keys series.dropped_by_key) (omega (arith, ends, h)))

  figure_adds_up :
      (f : Bucket → ℕ) (p : Sample → Bool)
      → ((last k : ℕ)
          → f (make_bucket series last k) ≡ count_if p (or_empty (lookup k series.by_key)))
      → sum_by f (bucketize_from samples width origin stages hold_start)
        ≡ count_if p (keep_if sent samples)
  unfolding bucketize_from
  figure_adds_up f p h =
      sum_by-buckets series f (λ k. count_if (with_key key_of p k) (keep_if sent samples))
        (λ last k. h last k ∙ members-count p k) 0 0 (bucket_count series)
      ∙ count-key key_of p (bucket_count series) (keep_if sent samples) (none_behind p)

  -- Every sample that was sent is in one bucket: their counts add up to the samples that were sent, and
  -- their errors to the errors among those.
  pub buckets_add_up :
      (sum_by (λ b. b.count) (bucketize_from samples width origin stages hold_start)
        ≡ count_if sent samples)
      × (sum_by (λ b. b.errors) (bucketize_from samples width origin stages hold_start)
          ≡ count_if is_error (keep_if sent samples))
  buckets_add_up = (
    figure_adds_up (λ b. b.count) (λ s. true) (make_bucket-count series)
        ∙ sym (count_every (keep_if sent samples))
        ∙ length-keep_if sent samples,
    figure_adds_up (λ b. b.errors) is_error (make_bucket-errors series),
  )
