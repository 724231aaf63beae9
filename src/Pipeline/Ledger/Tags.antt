-- ===== src/Pipeline/Ledger/Tags.antt =====
-- Which tags a run minted: `_TAG_SHAPE`, `_TAG_TAIL`, `_prefixes`, `minted_by` and `in_family` of
-- testinghq/pipeline/ledger.py. A pattern tries every place where a part may end.
use testing_hq.Prelude.{
  ℕ, Bool, false, not, ◌&&◌, ◌||◌, Option, none, some, List, [], ◌∷◌, ◌++◌, length, all, leb,
  nat_beq, is_empty, is_some, keep_if, if◌then◌else◌,
}
use testing_hq.Prelude.Text.{Text, codes, strip_prefix}
use testing_hq.Prelude.Sort.{sort_by}
use testing_hq.Pipeline.Strings.{Strings}

abbrev pub dash : ℕ
dash = 45

-- A text without the newline that ends it, before which `$` also matches.
abbrev pub chomp : Text → Text
chomp [] = []
chomp (c ∷ []) = if nat_beq c 10 then [] else c ∷ []
chomp (c ∷ d ∷ t) = c ∷ chomp (d ∷ t)

module _ (py : Strings) where
  open py use {is_digit, is_space}

  -- `-\d{4,}` to the end
  unfoldable pub index_part : Text → Bool
  index_part [] = false
  index_part (c ∷ ds) = nat_beq c dash && (leb 4 (length ds) && all is_digit ds)

  -- `\d+-\d{4,}`
  unfoldable pub seed_part : Text → Bool
  unfolding index_part
  seed_part [] = false
  seed_part (c ∷ t) = is_digit c && (index_part t || seed_part t)

  -- _TAG_TAIL.fullmatch: `-?\d+-\d{4,}`
  unfoldable pub tag_tail : Text → Bool
  unfolding seed_part
  tag_tail [] = false
  tag_tail (c ∷ t) = seed_part (c ∷ t) || (nat_beq c dash && seed_part t)

  -- `-` and then `-?\d+-\d{4,}$`
  unfoldable pub after_prefix : Text → Bool
  unfolding tag_tail
  after_prefix [] = false
  after_prefix (c ∷ t) = nat_beq c dash && (tag_tail t || tag_tail (chomp t))

  -- _TAG_SHAPE.match: `^\S+-(-?\d+)-\d{4,}$`
  unfoldable pub tag_shape : Text → Bool
  unfolding after_prefix
  tag_shape [] = false
  tag_shape (c ∷ t) = not (is_space c) && (after_prefix t || tag_shape t)

-- `Union[str, Sequence[str]]`
pub data Family : Type 0 where
  one_prefix : Text → Family
  many_prefixes : List Text → Family

abbrev pub given : Text → Bool
given p = not (is_empty p)

unfoldable pub prefixes : Family → List Text
prefixes (one_prefix p) = if is_empty p then [] else p ∷ []
prefixes (many_prefixes ps) = keep_if given ps

-- The order of `sorted(key=len, reverse=True)`.
abbrev pub not_shorter : Text → Text → Bool
not_shorter p q = leb (length q) (length p)

module _ (py : Strings) where
  abbrev pub tail_behind : Option Text → Bool
  tail_behind none = false
  tail_behind (some rest) = tag_tail py rest

  -- Whether `prefix` minted `tag`.
  unfoldable pub minted_with : Text → Text → Bool
  minted_with tag prefix = tail_behind (strip_prefix (prefix ++ codes "-") tag)

  unfoldable pub first_that_minted : Text → List Text → Option Text
  unfolding minted_with
  first_that_minted tag [] = none
  first_that_minted tag (p ∷ ps) =
      let rest = first_that_minted tag ps in if minted_with tag p then some p else rest

  unfoldable pub minted_by : Text → Family → Option Text
  unfolding first_that_minted prefixes
  minted_by tag family = first_that_minted tag (sort_by not_shorter (prefixes family))

  unfoldable pub in_family : Text → Family → Bool
  unfolding minted_by
  in_family tag family = is_some (minted_by tag family)
