-- ===== src/Pipeline/Ledger/Enumerate.antt =====
-- Listing the whole store after the readback: `adapter_can_enumerate`, `enumerate_store` and
-- `enumerate_strays` of testinghq/pipeline/ledger.py, and `can_enumerate` of
-- testinghq/pipeline/readback.py. The sentences that say why not are kept by their kind.
use testing_hq.Prelude.{Bool, false, Option, none, some, List, is_some, if◌then◌else◌}
use testing_hq.Prelude.Text.{Text}
use testing_hq.Pipeline.Readback.{Readback}

-- The adapter's attribute `can_enumerate`: absent, a bool, or a method with what it answers.
pub data Declared : Type 0 where
  undeclared : Declared
  declared_as : Bool → Declared
  method_answers : Bool → Declared
  method_raises : Text → Declared

-- What `list_all()` answers: the records and whether the listing is partial, or an exception.
pub data Listing : Type 0 where
  listed : List Readback → Bool → Listing
  list_failed : Text → Listing

-- What is asked of an adapter; `list_all` is None where there is no such method.
pub record Lister : Type 0 where
  pub enumerate_off : Bool
  pub declared : Declared
  pub list_all : Option Listing

pub data Reason : Type 0 where
  config_says_no cannot_enumerate truncated : Reason
  declaration_failed : Text → Reason
  listing_failed : Text → Reason

-- readback.can_enumerate
unfoldable pub can_enumerate : Lister → Bool
can_enumerate a = elim a.declared [
  | declared_as b ↦ b
  | undeclared ↦ is_some a.list_all
  | method_answers b ↦ is_some a.list_all
  | method_raises why ↦ is_some a.list_all
]

abbrev listing_there : Option Listing → Option Reason
listing_there none = some cannot_enumerate
listing_there (some l) = none

-- None when the store can be enumerated, and otherwise why not.
unfoldable pub adapter_cannot_enumerate : Lister → Option Reason
unfolding can_enumerate
adapter_cannot_enumerate a =
    let there = listing_there a.list_all in
    if a.enumerate_off then some config_says_no else elim a.declared [
      | method_raises why ↦ some (declaration_failed why)
      | method_answers b ↦ if b then there else some cannot_enumerate
      | declared_as b ↦ if can_enumerate a then there else some cannot_enumerate
      | undeclared ↦ if can_enumerate a then there else some cannot_enumerate
    ]

-- `(strays, reason, partial)`
pub record Enumerated : Type 0 where
  pub strays : Option (List Readback)
  pub reason : Option Reason
  pub partial : Bool

abbrev pub not_listed : Reason → Enumerated
not_listed why = record { strays = none; reason = some why; partial = false }

unfoldable pub listing_result : Listing → Enumerated
listing_result (list_failed why) = not_listed (listing_failed why)
listing_result (listed records partial) = record {
  strays = some records;
  reason = (if partial then some truncated else none);
  partial = partial;
}

unfoldable pub enumerate_store : Lister → Enumerated
unfolding adapter_cannot_enumerate listing_result
enumerate_store a = elim (adapter_cannot_enumerate a) [
  | some why ↦ not_listed why
  | none ↦ elim a.list_all [ none ↦ not_listed cannot_enumerate | some l ↦ listing_result l ]
]

-- A truncated listing counts as not searched.
unfoldable pub enumerate_strays : Lister → Option (List Readback) × Option Reason
unfolding enumerate_store
enumerate_strays a =
    let e = enumerate_store a in if e.partial then (none, e.reason) else (e.strays, e.reason)
