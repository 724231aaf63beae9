-- ===== src/Pipeline/Readback/Normalize.antt =====
-- The comparable forms of values: `normalize_address`, `normalize_text`, `normalize_route`,
-- `normalize_attachment_names` and `normalize_message_ids` of testinghq/pipeline/readback.py. None
-- stands for a value that is missing.
use testing_hq.Prelude.{
  ℕ, Bool, true, not, Option, none, some, List, [], ◌∷◌, ◌++◌, map, keep_if, is_empty, any, nat_beq,
  if◌then◌else◌,
}
use testing_hq.Prelude.Text.{Text}
use testing_hq.Prelude.TextOrder.{sorted_set}

-- What the library does to texts: NFKC, `\s+` replaced by a space, `strip` without and with the
-- characters `<>`, `casefold`, `lower`, `split`, and the addresses that `getaddresses` finds.
pub record Words : Type 0 where
  pub nfkc : Text → Text
  pub fold_space : Text → Text
  pub strip : Text → Text
  pub strip_angles : Text → Text
  pub casefold : Text → Text
  pub lower : Text → Text
  pub split : Text → List Text
  pub get_addresses : Text → List Text

-- value.replace("\\", "/").rsplit("/", 1)[-1]: what follows the last separator.
abbrev is_separator : ℕ → Bool
is_separator c = if nat_beq c 47 then true else nat_beq c 92

unfoldable pub basename : Text → Text
basename [] = []
basename (c ∷ t) =
    let rest = basename t in
    if any is_separator t then rest else if is_separator c then t else c ∷ t

abbrev given : Text → Bool
given t = not (is_empty t)

module _ (words : Words) where
  open words use {nfkc, fold_space, strip, strip_angles, casefold, lower, split, get_addresses}

  first_address : List Text → Text
  first_address [] = []
  first_address (a ∷ rest) = lower (strip_angles (strip a))

  unfoldable pub normalize_address : Option Text → Text
  unfolding first_address
  normalize_address none = []
  normalize_address (some v) = first_address (keep_if given (get_addresses v))

  unfoldable pub normalize_text : Option Text → Text
  normalize_text none = []
  normalize_text (some v) = casefold (strip (fold_space (nfkc v)))

  unfoldable pub normalize_route : Option Text → Text
  normalize_route none = []
  normalize_route (some v) = lower (strip (fold_space v))

  -- What is compared of an attachment's name.
  abbrev pub clean_name : Text → Text
  clean_name t = casefold (strip t)

  -- The names that are put into the set.
  unfoldable pub clean_names : List Text → List Text
  unfolding basename
  clean_names values = map clean_name (keep_if given (map basename values))

  unfoldable pub normalize_attachment_names : List Text → List Text
  unfolding clean_names
  normalize_attachment_names values = sorted_set (clean_names values)

  abbrev bare_id : Text → Text
  bare_id part = strip (strip_angles (strip part))

  -- The tokens of a list of values that are put into the set.
  unfoldable pub id_tokens : List Text → List Text
  id_tokens [] = []
  id_tokens (v ∷ vs) = keep_if given (map bare_id (split v)) ++ id_tokens vs

  unfoldable pub normalize_message_ids : List Text → List Text
  unfolding id_tokens
  normalize_message_ids values = sorted_set (id_tokens values)

  -- The same of one header value, which may be None and is split first.
  unfoldable pub message_ids_of : Option Text → List Text
  unfolding normalize_message_ids
  message_ids_of none = []
  message_ids_of (some v) = normalize_message_ids (split v)
