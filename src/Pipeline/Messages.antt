-- ===== src/Pipeline/Messages.antt =====
-- testinghq/pipeline/messages.py: the tag of a message, and finding it again in what was stored.
mod Marker
pub mod Examples
use testing_hq.Prelude.{
  ℕ, suc, ◌+◌, Bool, true, false, Option, none, some, List, [], ◌∷◌, ◌++◌, nat_beq, is_empty, ◌==◌,
  if◌then◌else◌,
}
use testing_hq.Prelude.Text.{Text, text_eq, codes, strip_prefix}
use testing_hq.Prelude.Decimal.{decimal, padded}
use testing_hq.Prelude.Int.{ℤ, pos, negsuc}
use testing_hq.Pipeline.Strings.{Strings}

-- f"{n}"
unfoldable pub show_int : ℤ → Text
show_int (pos n) = decimal n
show_int (negsuc n) = codes "-" ++ decimal (suc n)

-- A tag, or the ValueError that is raised.
pub data Made : Type 0 where
  made : Text → Made
  empty_prefix : Made
  negative_index : Made

unfoldable pub make_tag : Text → ℤ → ℤ → Made
unfolding show_int
make_tag prefix seed (negsuc n) = if is_empty prefix then empty_prefix else negative_index
make_tag prefix seed (pos n) =
    if is_empty prefix
    then empty_prefix
    else made (prefix ++ codes "-" ++ show_int seed ++ codes "-" ++ padded 4 n)

abbrev pub tag_header : Text
tag_header = codes "X-TestingHQ-Tag"

abbrev pub marker_open : Text
marker_open = codes "[testinghq:"

abbrev pub marker_close : ℕ
marker_close = 93

-- The marker of a tag; None stands for the ValueError of an empty one.
unfoldable pub tag_marker : Text → Option Text
tag_marker tag = if is_empty tag then none else some (marker_open ++ tag ++ marker_close ∷ [])

-- The text before the first `c`, and the text behind it.
unfoldable pub partition : ℕ → Text → Option (Text × Text)
partition c [] = none
partition c (d ∷ t) =
    let rest = partition c t in
    if nat_beq c d then some ([], t) else elim rest [ none ↦ none | some q ↦ some (d ∷ q.0, q.1) ]

-- The `while` loop over the markers: the first one with something in it, up to one that is open.
unfoldable pub marked_tag : Text → Option Text
unfolding partition
marked_tag [] = none
marked_tag (c ∷ t) =
    let later = marked_tag t in
    elim (strip_prefix marker_open (c ∷ t)) [
      | none ↦ later
      | some inside ↦ elim (partition marker_close inside) [
        | none ↦ none
        | some q ↦ if is_empty q.0 then later else some q.0
      ]
    ]

-- What the loop over the header lines returns: nothing yet, or the answer of `find_tag`.
pub data HeaderSearch : Type 0 where
  no_header : HeaderSearch
  header_value : Text → HeaderSearch

module _ (py : Strings) where
  open py use {strip, lower, split_lines}

  unfoldable pub header_search : List Text → HeaderSearch
  unfolding partition
  header_search [] = no_header
  header_search (line ∷ lines) =
      let later = header_search lines in
      elim (partition 58 line) [
        | none ↦ later
        | some q ↦ if lower (strip q.0) == lower tag_header then header_value (strip q.1) else later
      ]

  unfoldable pub find_in : Text → Option Text
  unfolding header_search marked_tag
  find_in text =
      let marked = marked_tag text in
      elim (header_search (split_lines text)) [
        | header_value v ↦ if is_empty v then none else some v
        | no_header ↦ marked
      ]

  unfoldable pub find_tag : Option Text → Option Text
  unfolding find_in
  find_tag none = none
  find_tag (some text) = if is_empty text then none else find_in text

  -- `for candidate in candidates`; an empty tag counts as none.
  unfoldable pub harvest_tag : List (Option Text) → Option Text
  unfolding find_tag
  harvest_tag [] = none
  harvest_tag (candidate ∷ rest) =
      let later = harvest_tag rest in
      elim (find_tag candidate) [
        | none ↦ later
        | some tag ↦ if is_empty tag then later else some tag
      ]
