-- ===== src/Pipeline/Pages/Whole.antt =====
-- A store that serves its records in pages is read in whole.
use Prim.Native.Nat.{max}
use testing_hq.Prelude.{
  ℕ, zero, suc, ◌+◌, ◌-◌, ◌*◌, ◌≤◌, ◌<◌, ◌≡◌, ◌⊎◌, inl, inr, refl, ap, ◌∙◌, Bool, true, false, not,
  ◌&&◌, Option, none, some, List, [], ◌∷◌, ◌++◌, append_assoc, arith, Bool-cases, length,
  length-take, take, is_empty, nat_beq,
}
use testing_hq.Pipeline.Pages.{
  counted, Page, Asked, brings, Collected, adapter_error, collected, Reading, first_status, is_full,
  stops, goes, next_url, after_page, after_response, read_page, collect_from, collect,
}

abbrev drop : {A : Type 0} → ℕ → List A → List A
drop zero xs = xs
drop (suc n) [] = []
drop (suc n) (x ∷ xs) = drop n xs

-- The records of the page that stands so many pages on.
abbrev pub page_at : {A : Type 0} → ℕ → ℕ → List A → List A
page_at size zero xs = take size xs
page_at size (suc n) xs = page_at size n (drop size xs)

module _ {A : Type 0} where
  take-drop : (n : ℕ) (xs : List A) → take n xs ++ drop n xs ≡ xs
  take-drop zero xs = refl
  take-drop (suc n) [] = refl
  take-drop (suc n) (x ∷ xs) = ap (λ r. x ∷ r) (take-drop n xs)

  length-drop : (n : ℕ) (xs : List A) → length (drop n xs) ≡ length xs - n
  length-drop zero xs = omega arith
  length-drop (suc n) [] = omega arith
  length-drop (suc n) (x ∷ xs) = omega (arith, length-drop n xs)

  take_all : (n : ℕ) (xs : List A) → length xs ≤ n → take n xs ≡ xs
  take_all zero [] h = refl
  take_all zero (x ∷ xs) h = ground (arith, h)
  take_all (suc n) [] h = refl
  take_all (suc n) (x ∷ xs) h = ap (λ r. x ∷ r) (take_all n xs (omega (arith, h)))

abbrev pub served : {U R : Type 0} → List R → Page U R
served records = record { status = 200; records = some records; next = some none }

module _ {U R : Type 0} (page_size : ℕ) (sized : Bool) (lookup : Bool)
    (ask : U → ℕ → Asked U R) where
  abbrev read_on : Reading U R → List R → Reading U R
  read_on r records = record r {
    status = first_status page_size (counted sized) lookup ask r.status 200;
    raw = r.raw ++ records;
    biggest_page = max r.biggest_page (length records);
  }

  stops_here :
      (is_first is_last : Bool) (r : Reading U R) (records : List R)
      → ask r.current r.page ≡ brings (served records)
      → (not (is_empty records)
          && is_full page_size (counted sized) lookup ask sized r.biggest_page (length records))
        ≡ false
      → read_page page_size (counted sized) lookup ask is_first is_last r
        ≡ stops (
            collected
              (r.raw ++ records)
              false
              (first_status page_size (counted sized) lookup ask r.status 200))
  unfolding read_page after_response after_page next_url
  stops_here is_first is_last r records h f = ground (arith, h, f)

  goes_on :
      (is_first : Bool) (r : Reading U R) (records : List R)
      → ask r.current r.page ≡ brings (served records)
      → (not (is_empty records)
          && is_full page_size (counted sized) lookup ask sized r.biggest_page (length records))
        ≡ true
      → read_page page_size (counted sized) lookup ask is_first false r
        ≡ goes (record (read_on r records) { page = suc r.page })
  unfolding read_page after_response after_page next_url
  goes_on is_first r records h f = ground (arith, h, f)

  abbrev goes_further : Reading U R → List R → Bool
  goes_further r records =
      not (is_empty records)
      && is_full page_size (counted sized) lookup ask sized r.biggest_page (length records)

  is_empty-length : (xs : List R) → is_empty xs ≡ nat_beq (length xs) 0
  is_empty-length [] = refl
  is_empty-length (x ∷ xs) = ground arith

  module _ (size : ℕ) (positive : 0 < size) (agreed : sized ≡ true → page_size ≡ size) where
    -- What the biggest page so far can be.
    abbrev Shape : Reading U R → List R → Type 0
    Shape r ys = (r.biggest_page ≡ 0) ⊎ ((r.biggest_page ≡ size) ⊎ (length ys ≡ 0))

    at_end :
        (r : Reading U R) (ys : List R)
        → Shape r ys
        → goes_further r (take size ys) ≡ false
        → length ys ≤ size
    at_end r ys sh h =
        ground (arith, is_empty-length (take size ys), length-take size ys, agreed, h, sh)

    full-Shape :
        (r : Reading U R) (ys : List R)
        → Shape r ys
        → Shape (read_on r (take size ys)) (drop size ys)
    full-Shape r ys sh = ground (arith, length-take size ys, length-drop size ys, sh)

    abbrev Serves : Reading U R → List R → Type 0
    Serves r ys = (n : ℕ) → ask r.current (r.page + n) ≡ brings (served (page_at size n ys))

    abbrev everything : Reading U R → List R → Collected U R
    everything r ys =
        collected (r.raw ++ ys) false
          (first_status page_size (counted sized) lookup ask r.status 200)

    this_page :
        (r : Reading U R) (ys : List R)
        → Serves r ys
        → ask r.current r.page ≡ brings (served (take size ys))
    this_page r ys h = ap (λ k. ask r.current k) (omega arith) ∙ h 0

    stop_with :
        (is_first is_last : Bool) (r : Reading U R) (ys : List R)
        → Serves r ys
        → length ys ≤ size
        → goes_further r (take size ys) ≡ false
        → read_page page_size (counted sized) lookup ask is_first is_last r
          ≡ stops (everything r ys)
    stop_with is_first is_last r ys h l f =
        stops_here is_first is_last r (take size ys) (this_page r ys h) f
        ∙ ap
            (λ q. stops (
              collected (r.raw ++ q) false
                (first_status page_size (counted sized) lookup ask r.status 200)))
            (take_all size ys l)

    abbrev further : Reading U R → List R → Reading U R
    further r ys = record (read_on r (take size ys)) { page = suc r.page }

    same_status :
        (t : Option ℕ)
        → first_status page_size
            (counted sized)
            lookup
            ask
            (first_status page_size (counted sized) lookup ask t 200)
            200
          ≡ first_status page_size (counted sized) lookup ask t 200
    same_status none = refl
    same_status (some n) = refl

    same_everything :
        (r : Reading U R) (ys : List R) → everything (further r ys) (drop size ys) ≡ everything r ys
    same_everything r ys =
        ap
          (λ q. collected q false (
            first_status page_size (counted sized) lookup ask
              (first_status page_size (counted sized) lookup ask r.status 200) 200))
          (append_assoc r.raw (take size ys) (drop size ys)
            ∙ ap (λ q. r.raw ++ q) (take-drop size ys))
        ∙ ap (λ t. collected (r.raw ++ ys) false t) (same_status r.status)

    still-Serves :
        (r : Reading U R) (ys : List R) → Serves r ys → Serves (further r ys) (drop size ys)
    still-Serves r ys h n = ap (λ k. ask r.current k) (omega arith) ∙ h (suc n)

    whole :
        (left : ℕ) (is_first : Bool) (r : Reading U R) (ys : List R)
        → Serves r ys
        → Shape r ys
        → length ys ≤ left * size
        → collect_from page_size (counted sized) lookup ask left is_first r ≡ everything r ys
    unfolding collect_from
    whole zero is_first r ys h sh l =
        ap (λ x. elim x as (λ y. Collected U R) [ stops c ↦ c | goes q ↦ adapter_error ])
          (stop_with is_first true r ys h (omega (arith, l))
            (ground (arith, l, is_empty-length (take size ys), length-take size ys)))
    whole (suc left) is_first r ys h sh l = elim (Bool-cases (goes_further r (take size ys))) [
      | inl f ↦
          ap
            (λ x. elim x as (λ y. Collected U R) [
              | stops c ↦ c
              | goes q ↦ collect_from page_size (counted sized) lookup ask left false q
            ])
            (goes_on is_first r (take size ys) (this_page r ys h) f)
          ∙ whole left false (further r ys) (drop size ys) (still-Serves r ys h)
              (full-Shape r ys sh) (omega (arith, l, length-drop size ys))
          ∙ same_everything r ys
      | inr f ↦
          ap
            (λ x. elim x as (λ y. Collected U R) [
              | stops c ↦ c
              | goes q ↦ collect_from page_size (counted sized) lookup ask left false q
            ])
            (stop_with is_first false r ys h (at_end r ys sh f) f)
    ]

    -- Where the endpoint serves its records in pages of a size above 0, which is the size the code asks
    -- for where it asks for one, and the pages that may be read before the last hold the records, collect
    -- returns them all, in order, as a whole answer with the status 200.
    pub collect_whole :
        (max_pages : ℕ) (url : U) (records : List R)
        → ((n : ℕ) → ask url (suc n) ≡ brings (served (page_at size n records)))
        → length records ≤ (max_pages - 1) * size
        → collect page_size (counted sized) lookup ask max_pages url
          ≡ collected records false (some 200)
    unfolding collect
    collect_whole max_pages url records h l =
        whole (max_pages - 1) true
          (record { raw = []; status = none; page = 1; biggest_page = 0; current = url }) records
          (λ n. ap (λ k. ask url k) (omega arith) ∙ h n) (inl refl) l
