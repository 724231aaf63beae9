-- ===== src/Pipeline/Mailbox/Examples.antt =====
-- A sink that grows by half a line, and then by the rest of it and another line.
use testing_hq.Prelude.{
  ℕ, ◌≡◌, refl, Option, none, some, List, [], ◌∷◌, map, keep_if, is_empty, length, nat_beq,
  if◌then◌else◌,
}
use testing_hq.Prelude.Text.{Text}
use testing_hq.Pipeline.Mailbox.{
  File, present, Line, blank, no_json, object, consume, new_mailbox, fetch_found, to_entry,
}
use testing_hq.Pipeline.Mailbox.Pieces.{quietly, and_then, read_in_pieces}
use testing_hq.Pipeline.Mailbox.Agreed.{has_tag, behind, fetch_found-list_found}

-- A line of three bytes is an object, which is the line; its tag is its first byte.
abbrev reads : List ℕ → Line Text
reads line =
    if is_empty line then blank else if nat_beq (length line) 3 then object line else no_json

abbrev tag_of : Text → Option Text
tag_of [] = none
tag_of (b ∷ rest) = some (b ∷ [])

abbrev half : File
half = present 1 5 (65 ∷ 1 ∷ 1 ∷ 10 ∷ 66 ∷ 2 ∷ [])

abbrev full : File
full = present 1 6 (65 ∷ 1 ∷ 1 ∷ 10 ∷ 66 ∷ 2 ∷ 2 ∷ 10 ∷ 65 ∷ 3 ∷ 3 ∷ 10 ∷ [])

fetch_found-list_found_example :
    fetch_found (λ r t. r) (65 ∷ []) (behind reads tag_of 100 (full ∷ half ∷ []))
    ≡ map
        (to_entry (λ r t. r))
        (keep_if (has_tag (65 ∷ [])) (behind reads tag_of 100 (full ∷ half ∷ [])).records)
fetch_found-list_found_example =
    fetch_found-list_found reads tag_of 100 (λ r t. r) (full ∷ half ∷ []) (65 ∷ []) refl

read_in_pieces_example :
    quietly reads tag_of 1 (consume reads tag_of 1 (65 ∷ 1 ∷ 1 ∷ 10 ∷ 66 ∷ 2 ∷ 2 ∷ []) new_mailbox)
    ≡ quietly reads tag_of 1 (
        and_then reads tag_of 1
          (consume reads tag_of 1 (65 ∷ 1 ∷ 1 ∷ 10 ∷ []) new_mailbox)
          (consume reads tag_of 1 (66 ∷ 2 ∷ 2 ∷ [])))
read_in_pieces_example =
    read_in_pieces reads tag_of 1 (65 ∷ 1 ∷ 1 ∷ []) (66 ∷ 2 ∷ 2 ∷ []) new_mailbox
