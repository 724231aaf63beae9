-- ===== src/Pipeline/Loop/Merged.antt =====
-- What `merge_outbound` gives a message, and what it leaves over.
use testing_hq.Prelude.{
  ◌≡◌, refl, ap, ◌⊎◌, inl, inr, Bool, true, false, not, ◌&&◌, Option, none, some, List, [], ◌∷◌,
  ◌++◌, arith, map, all, is_empty, is_some, if◌then◌else◌, ◌==◌,
}
use testing_hq.Prelude.Text.{Text, text_eq, text_beq_iff}
use testing_hq.Prelude.Dict.{Dict, insert, lookup, lookup-insert}
use testing_hq.Prelude.Distinct.{mem}
use testing_hq.Pipeline.Readback.{Readback}
use testing_hq.Pipeline.Readback.Normalize.{Words}
use testing_hq.Pipeline.Ledger.Account.{found_for}
use testing_hq.Pipeline.Loop.Outbound.{
  attribute, Merging, keys_seen, merge_start, merge_tied, merge_from, merge_outbound,
}

found_for-insert :
    (t u : Text) (rs : List Readback) (d : Dict Text (List Readback))
    → found_for (insert t rs d) u ≡ (if t == u then rs else found_for d u)
unfolding found_for
found_for-insert t u rs d = ground (arith, lookup-insert t u rs d)

keys_seen-insert :
    (t u : Text) (ks : List Text) (d : Dict Text (List Text))
    → keys_seen (insert t ks d) u ≡ (if t == u then ks else keys_seen d u)
unfolding keys_seen
keys_seen-insert t u ks d = ground (arith, lookup-insert t u ks d)

same_found :
    (d : Dict Text (List Readback)) (t u : Text) → (t == u) ≡ true → found_for d t ≡ found_for d u
same_found d t u h = ap (found_for d) ((text_beq_iff t u).0 h)

is_empty-map : (key : Readback → Text) (rs : List Readback) → is_empty (map key rs) ≡ is_empty rs
is_empty-map key [] = refl
is_empty-map key (r ∷ rs) = refl

is_empty_end : {A : Type 0} (xs : List A) (x : A) → is_empty (xs ++ x ∷ []) ≡ false
is_empty_end [] x = refl
is_empty_end (y ∷ xs) x = refl

option_cases : (o : Option Text) → (o ≡ none) ⊎ ((u : Text) × (o ≡ some u))
option_cases none = inl refl
option_cases (some u) = inr (u, refl)

-- Where nothing was found for a tag, no key of it was seen.
Fits : Merging → Text → Type 0
Fits m t = is_empty (found_for m.merged t) ≡ true → is_empty (keys_seen m.seen t) ≡ true

-- Whether a record is tied to a tag.
abbrev pub is_tied : Option Text → Text → Bool
is_tied none t = false
is_tied (some u) t = u == t

module _ (key : Readback → Text) (words : Words) where
  start_found :
      (d : Dict Text (List Readback)) (tags : List Text) (m : Merging) (t : Text)
      → found_for (merge_start key words d tags m).merged t
        ≡ (if mem t tags then found_for d t else found_for m.merged t)
  unfolding merge_start
  start_found d [] m t = refl
  start_found d (u ∷ tags) m t = ground (
    arith,
    start_found d tags
        (record m {
          merged = insert u (found_for d u) m.merged;
          seen = insert u (map key (found_for d u)) m.seen;
        })
        t,
    found_for-insert u t (found_for d u) m.merged,
    same_found d u t,
  )

  start_seen :
      (d : Dict Text (List Readback)) (tags : List Text) (m : Merging) (t : Text)
      → is_empty (keys_seen (merge_start key words d tags m).seen t)
        ≡ (if mem t tags then is_empty (found_for d t) else is_empty (keys_seen m.seen t))
  unfolding merge_start
  start_seen d [] m t = refl
  start_seen d (u ∷ tags) m t = ground (
    arith,
    start_seen d tags
        (record m {
          merged = insert u (found_for d u) m.merged;
          seen = insert u (map key (found_for d u)) m.seen;
        })
        t,
    keys_seen-insert u t (map key (found_for d u)) m.seen,
    is_empty-map key (found_for d u),
    same_found d u t,
  )

  start_left :
      (d : Dict Text (List Readback)) (tags : List Text) (m : Merging)
      → (merge_start key words d tags m).unattributed ≡ m.unattributed
  unfolding merge_start
  start_left d [] m = refl
  start_left d (u ∷ tags) m = start_left d tags (record m {
    merged = insert u (found_for d u) m.merged;
    seen = insert u (map key (found_for d u)) m.seen;
  })

  mem_filled : (k : Text) (ks : List Text) → mem k ks ≡ true → is_empty ks ≡ false
  mem_filled k [] h = cc
  mem_filled k (j ∷ ks) h = refl

  tied_found :
      (u t : Text) (r : Readback) (m : Merging)
      → Fits m u
      → is_empty (found_for (merge_tied key words u r m).merged t)
        ≡ (is_empty (found_for m.merged t) && not (u == t))
  unfolding merge_tied Fits
  tied_found u t r m f = ground (
    arith,
    f,
    mem_filled (key r) (keys_seen m.seen u),
    found_for-insert u t (found_for m.merged u ++ r ∷ []) m.merged,
    is_empty_end (found_for m.merged u) r,
    same_found m.merged u t,
  )

  tied-Fits :
      (u t : Text) (r : Readback) (m : Merging)
      → Fits m u
      → Fits m t
      → Fits (merge_tied key words u r m) t
  unfolding merge_tied Fits
  tied-Fits u t r m f g = ground (
    arith,
    f,
    g,
    found_for-insert u t (found_for m.merged u ++ r ∷ []) m.merged,
    keys_seen-insert u t (key r ∷ keys_seen m.seen u) m.seen,
    is_empty_end (found_for m.merged u) r,
  )

  module _ (tags : List Text) (ids : Dict Text Text) where
    from_found :
        (rs : List Readback) (m : Merging)
        → ((t : Text) → Fits m t)
        → (t : Text)
        → is_empty (found_for (merge_from key words tags ids rs m).merged t) ≡ (
            is_empty (found_for m.merged t)
            && all (λ r. not (is_tied (attribute words tags ids r) t)) rs)
    unfolding merge_from Fits
    from_found [] m f t = ground arith
    from_found (r ∷ rs) m f t = elim (option_cases (attribute words tags ids r)) [
      | inl e ↦
          ground
            (arith, e, from_found rs (record m { unattributed = m.unattributed ++ r ∷ [] }) f t)
      | inr (u, e) ↦ ground (
        arith,
        e,
        from_found rs (merge_tied key words u r m) (λ k. tied-Fits u k r m (f u) (f k)) t,
        tied_found u t r m (f u),
      )
    ]

    tied_left :
        (u : Text) (r : Readback) (m : Merging)
        → (merge_tied key words u r m).unattributed ≡ m.unattributed
    unfolding merge_tied
    tied_left u r m = ground arith

    from_left :
        (rs : List Readback) (m : Merging)
        → is_empty (merge_from key words tags ids rs m).unattributed
          ≡ (is_empty m.unattributed && all (λ r. is_some (attribute words tags ids r)) rs)
    unfolding merge_from Fits
    from_left [] m = ground arith
    from_left (r ∷ rs) m = elim (option_cases (attribute words tags ids r)) [
      | inl e ↦ ground (
        arith,
        e,
        from_left rs (record m { unattributed = m.unattributed ++ r ∷ [] }),
        is_empty_end m.unattributed r,
      )
      | inr (u, e) ↦ ground (arith, e, from_left rs (merge_tied key words u r m), tied_left u r m)
    ]

  start-Fits :
      (d : Dict Text (List Readback)) (tags : List Text) (k : Text)
      → Fits (merge_start key words d tags (record { merged = []; seen = []; unattributed = [] })) k
  unfolding Fits keys_seen lookup found_for
  start-Fits d tags k =
      let begun : Merging = record { merged = []; seen = []; unattributed = [] } in
      ground (arith, start_found d tags begun k, start_seen d tags begun k)

  -- Nothing is merged for a tag where its lookup found nothing and no listed record is tied to it.
  pub merged_none :
      (d : Dict Text (List Readback)) (rs : List Readback) (tags : List Text) (ids : Dict Text Text)
      (t : Text)
      → mem t tags ≡ true
      → is_empty (found_for (merge_outbound key words d rs tags ids).merged t)
        ≡ (is_empty (found_for d t) && all (λ r. not (is_tied (attribute words tags ids r) t)) rs)
  unfolding merge_outbound
  merged_none d rs tags ids t h =
      let begun : Merging = record { merged = []; seen = []; unattributed = [] } in
      let start = merge_start key words d tags begun in
      ground (
        arith,
        h,
        start_found d tags begun t,
        from_found tags ids rs start (λ k. start-Fits d tags k) t,
      )

  -- Nothing is left over where every listed record is tied to some tag.
  pub left_none :
      (d : Dict Text (List Readback)) (rs : List Readback) (tags : List Text) (ids : Dict Text Text)
      → is_empty (merge_outbound key words d rs tags ids).unattributed
        ≡ all (λ r. is_some (attribute words tags ids r)) rs
  unfolding merge_outbound
  left_none d rs tags ids =
      let begun : Merging = record { merged = []; seen = []; unattributed = [] } in
      ground
        (arith, start_left d tags begun, from_left tags ids rs (merge_start key words d tags begun))
