-- ===== src/Pipeline/Messages/Examples.antt =====
-- A stamped text, and the theorem at it.
use testing_hq.Prelude.{◌≡◌, refl, some, [], ◌∷◌, ◌++◌, nat_beq}
use testing_hq.Prelude.Text.{Text, codes}
use testing_hq.Prelude.Decimal.{is_decimal}
use testing_hq.Pipeline.Strings.{Strings}
use testing_hq.Pipeline.Messages.{tag_marker, header_search, no_header, find_tag}
use testing_hq.Pipeline.Messages.Marker.{find_tag-tag_marker}

abbrev plain : Strings
plain = record {
  strip = λ t. t;
  lower = λ t. t;
  split_lines = λ t. t ∷ [];
  is_digit = is_decimal;
  is_space = λ c. nat_beq c 32;
}

abbrev before : Text
before = codes "Hello: "

abbrev after : Text
after = codes " bye [testinghq:]"

abbrev marker : Text
marker = codes "[testinghq:hq-7-0000]"

the_marker_made : tag_marker (codes "hq-7-0000") ≡ some marker
unfolding tag_marker
the_marker_made = refl

no_header_here : header_search plain (plain.split_lines (before ++ (marker ++ after))) ≡ no_header
unfolding header_search
no_header_here = refl

find_tag-tag_marker_example :
    find_tag plain (some (before ++ (marker ++ after))) ≡ some (codes "hq-7-0000")
find_tag-tag_marker_example =
    find_tag-tag_marker plain before (codes "hq-7-0000") after marker the_marker_made refl refl
      no_header_here
