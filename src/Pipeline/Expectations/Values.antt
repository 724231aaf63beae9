-- ===== src/Pipeline/Expectations/Values.antt =====
-- The comparison helpers of testinghq/pipeline/expectations.py. `Patterns` stands for its regular
-- expressions and for `html.unescape`.
use testing_hq.Prelude.{
  ℕ, Bool, Option, none, some, List, [], ◌∷◌, ◌++◌, all, any, count_if, is_empty, nat_beq,
  if◌then◌else◌, ◌==◌,
}
use testing_hq.Prelude.Text.{Text, text_eq}
use testing_hq.Core.Guardrails.{rpartition}
use testing_hq.Pipeline.Readback.Normalize.{Words, basename}

-- `_ANGLE_ADDRESS.search(v).group(1)`, `_HTML_TAG.search`, the three substitutions of
-- `html_to_text` with `unescape` behind them, and `_NON_ALNUM.sub("", v)`.
pub record Patterns : Type 0 where
  pub angle_address : Text → Option Text
  pub has_html_tag : Text → Bool
  pub drop_elements : Text → Text
  pub break_lines : Text → Text
  pub drop_tags : Text → Text
  pub unescape : Text → Text
  pub drop_symbols : Text → Text

module _ (words : Words) (patterns : Patterns) where
  open words use {strip, strip_angles, casefold, lower, get_addresses}
  open patterns use {
    angle_address, has_html_tag, drop_elements, break_lines, drop_tags, unescape, drop_symbols,
  }

  -- The first entry with an `@`.
  unfoldable pub first_with_at : List Text → Text
  first_with_at [] = []
  first_with_at (a ∷ rest) =
      let later = first_with_at rest in
      if any (nat_beq 64) a then lower (strip_angles (strip a)) else later

  unfoldable pub sender_address : Option Text → Text
  unfolding first_with_at
  sender_address none = []
  sender_address (some v) =
      let listed = first_with_at (get_addresses v) in
      if is_empty (strip v)
      then []
      else elim (angle_address v) [ some a ↦ lower (strip a) | none ↦ listed ]

  unfoldable pub html_to_text : Text → Text
  html_to_text v = unescape (drop_tags (break_lines (drop_elements v)))

  -- base.rsplit(".", 1)[0] where a dot follows the first character
  unfoldable pub stem : Text → Text
  unfolding rpartition
  stem [] = []
  stem (c ∷ t) =
      if any (nat_beq 46) t
      then elim (rpartition 46 (c ∷ t)) [ none ↦ c ∷ t | some q ↦ q.0 ]
      else c ∷ t

  unfoldable pub loose_attachment_key : Text → Text
  unfolding basename stem
  loose_attachment_key name =
      let base = strip (basename name) in
      let key = drop_symbols (casefold (stem base)) in if is_empty key then casefold base else key

-- How often a text is in a list.
abbrev pub times_in : Text → List Text → ℕ
times_in x xs = count_if (λ y. y == x) xs

abbrev pub as_often : List Text → List Text → Text → Bool
as_often xs ys x = nat_beq (times_in x xs) (times_in x ys)

-- Counter(xs) == Counter(ys)
unfoldable pub same_counts : List Text → List Text → Bool
same_counts xs ys = all (as_often xs ys) (xs ++ ys)
