-- ===== src/Pipeline/Pages.antt =====
-- `_collect` of `HttpJsonAdapter` in testinghq/pipeline/adapters.py: reading page after page. What a request
-- for a page brings is a parameter: the request of Pipeline/Http, and the decoding of its body.
mod Whole
mod Examples
use Prim.Native.Nat.{max}
use testing_hq.Prelude.{
  ℕ, zero, suc, ◌+◌, ◌-◌, Bool, true, false, not, ◌&&◌, ◌||◌, Option, none, some, List, [], ◌∷◌,
  ◌++◌, length, is_empty, is_some, leb, ltb, nat_beq, if◌then◌else◌,
}

-- What `page_param`, `page_size_param` and `next_path` say: no further pages, pages that are counted, with
-- a size that the code asks for or not, or a pointer to the next page.
pub data Paging : Type 0 where
  single : Paging
  counted : Bool → Paging
  pointed : Paging

-- What a request for a page brings: an AdapterError, or a status, the records of the payload (none where
-- the payload is refused), and the url that the pointer gives (none where `_follow` refuses it).
module _ (U R : Type 0) where
  pub record Page : Type 0 where
    pub status : ℕ
    pub records : Option (List R)
    pub next : Option (Option U)

  pub data Asked : Type 0 where
    raises : Asked
    brings : Page → Asked

  -- The result of `_collect`, before its records are mapped: an AdapterError, or a FetchResult.
  pub data Collected : Type 0 where
    adapter_error : Collected
    collected : List R → Bool → Option ℕ → Collected

  -- The variables of the loop.
  pub record Reading : Type 0 where
    pub raw : List R
    pub status : Option ℕ
    pub page : ℕ
    pub biggest_page : ℕ
    pub current : U

module _ {U R : Type 0} (page_size : ℕ) (paging : Paging) (lookup : Bool)
    (ask : U → ℕ → Asked U R) where
  abbrev first_status : Option ℕ → ℕ → Option ℕ
  first_status none s = some s
  first_status (some t) s = some t

  -- Whether a counted page is full.
  abbrev is_full : Bool → ℕ → ℕ → Bool
  is_full true biggest n = leb page_size n
  is_full false biggest n = leb biggest n

  -- The url of the next page; none where `_follow` refuses it.
  unfoldable pub next_url : Reading U R → List R → Option (Option U) → Option (Option U)
  next_url r records next = elim paging [
    | single ↦ some none
    | counted sized ↦ some (
        if not (is_empty records) && is_full sized r.biggest_page (length records)
        then some r.current
        else none)
    | pointed ↦ next
  ]

  abbrev fetched : Reading U R → Bool → Collected U R
  fetched r partial = collected r.raw partial r.status

  -- How a round ends: with the result, or going on to another page.
  pub data Round : Type 0 where
    stops : Collected U R → Round
    goes : Reading U R → Round

  -- Whether it was the last page, of `max_pages`, decides where there is a next url.
  unfoldable pub after_page : Bool → Reading U R → List R → Option (Option U) → Round
  unfolding next_url
  after_page is_last r records next =
      let read = record r {
        raw = r.raw ++ records;
        biggest_page = max r.biggest_page (length records);
      } in
      elim (next_url r records next) [
        | none ↦ stops adapter_error
        | some none ↦ stops (fetched read false)
        | some (some url) ↦
            if is_last
            then stops (fetched read true)
            else goes (record read { current = url; page = suc r.page })
      ]

  unfoldable pub after_response : Bool → Bool → Reading U R → Page U R → Round
  unfolding after_page
  after_response is_first is_last r p =
      let seen = record r { status = first_status r.status p.status } in
      if nat_beq p.status 404 && (lookup || not is_first)
      then stops (fetched seen false)
      else if not (leb 200 p.status && ltb p.status 300)
      then stops adapter_error
      else elim p.records [
        | none ↦ stops adapter_error
        | some records ↦ after_page is_last seen records p.next
      ]

  unfoldable pub read_page : Bool → Bool → Reading U R → Round
  unfolding after_response
  read_page is_first is_last r = elim (ask r.current r.page) [
    | raises ↦ stops adapter_error
    | brings p ↦ after_response is_first is_last r p
  ]

  -- The loop, with so many pages left behind this one.
  unfoldable pub collect_from : ℕ → Bool → Reading U R → Collected U R
  unfolding read_page
  collect_from zero is_first r = elim (read_page is_first true r) [
    | stops c ↦ c
    | goes q ↦ adapter_error
  ]
  collect_from (suc left) is_first r = elim (read_page is_first false r) [
    | stops c ↦ c
    | goes q ↦ collect_from left false q
  ]

  -- `_collect`; `max_pages` is at least 1.
  unfoldable pub collect : ℕ → U → Collected U R
  unfolding collect_from
  collect max_pages url =
      collect_from (max_pages - 1) true
        (record { raw = []; status = none; page = 1; biggest_page = 0; current = url })
