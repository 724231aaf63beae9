-- ===== src/Core/Report/Kinds.antt =====
-- The labels of testinghq/core/report.py: payload categories, response classes, and the reasons
-- why a request got no response.
use testing_hq.Prelude.{ℕ, ◌≡◌, ◌↔◌, Bool, true, false, ◌&&◌, List, [], ◌∷◌, arith, nat_beq, Eq}
use testing_hq.Prelude.Text.{Text, codes, text_beq, text_beq_iff}

-- A label outside CATEGORIES is `unknown`; a record without one is `unlabelled`.
pub data Category : Type 0 where
  clean messy_but_valid multilingual_gibberish structurally_malformed degenerate : Category
  unknown : Text → Category
  unlabelled : Category

unfoldable pub is_clean : Category → Bool
is_clean clean = true
is_clean _ = false

unfoldable pub is_degenerate : Category → Bool
is_degenerate degenerate = true
is_degenerate _ = false

-- The label as an f-string prints it.
unfoldable pub label : Category → Text
label clean = codes "clean"
label messy_but_valid = codes "messy-but-valid"
label multilingual_gibberish = codes "multilingual-gibberish"
label structurally_malformed = codes "structurally-malformed"
label degenerate = codes "degenerate"
label (unknown t) = t
label unlabelled = codes "None"

abbrev category_rank : Category → ℕ
category_rank clean = 0
category_rank messy_but_valid = 1
category_rank multilingual_gibberish = 2
category_rank structurally_malformed = 3
category_rank degenerate = 4
category_rank (unknown t) = 5
category_rank unlabelled = 6

abbrev unknown_label : Category → Text
unknown_label (unknown t) = t
unknown_label _ = []

abbrev pub category_beq : Category → Category → Bool
category_beq a b =
    nat_beq (category_rank a) (category_rank b) && text_beq (unknown_label a) (unknown_label b)

pub category_beq_iff : (a b : Category) → (category_beq a b ≡ true) ↔ (a ≡ b)
category_beq_iff a b = ground (arith, text_beq_iff (unknown_label a) (unknown_label b))

instance abbrev pub category_eq : Eq Category
category_eq = record { equals_iff = category_beq_iff; equals = category_beq }

-- CATEGORIES
abbrev pub categories : List Category
categories =
    clean ∷ messy_but_valid ∷ multilingual_gibberish ∷ structurally_malformed ∷ degenerate ∷ []

pub data StatusClass : Type 0 where
  one_xx two_xx three_xx four_xx five_xx other_status no_response : StatusClass

abbrev rank : StatusClass → ℕ
rank one_xx = 0
rank two_xx = 1
rank three_xx = 2
rank four_xx = 3
rank five_xx = 4
rank other_status = 5
rank no_response = 6

abbrev pub status_class_beq : StatusClass → StatusClass → Bool
status_class_beq a b = nat_beq (rank a) (rank b)

pub status_class_beq_iff : (a b : StatusClass) → (status_class_beq a b ≡ true) ↔ (a ≡ b)
status_class_beq_iff a b = ground arith

instance abbrev pub status_class_eq : Eq StatusClass
status_class_eq = record { equals_iff = status_class_beq_iff; equals = status_class_beq }

-- STATUS_CLASSES
abbrev pub status_classes : List StatusClass
status_classes = one_xx ∷ two_xx ∷ three_xx ∷ four_xx ∷ five_xx ∷ other_status ∷ no_response ∷ []

pub data ErrorKind : Type 0 where
  refused dns timeout tls other_error : ErrorKind

abbrev error_rank : ErrorKind → ℕ
error_rank refused = 0
error_rank dns = 1
error_rank timeout = 2
error_rank tls = 3
error_rank other_error = 4

abbrev pub error_kind_beq : ErrorKind → ErrorKind → Bool
error_kind_beq a b = nat_beq (error_rank a) (error_rank b)

pub error_kind_beq_iff : (a b : ErrorKind) → (error_kind_beq a b ≡ true) ↔ (a ≡ b)
error_kind_beq_iff a b = ground arith

instance abbrev pub error_kind_eq : Eq ErrorKind
error_kind_eq = record { equals_iff = error_kind_beq_iff; equals = error_kind_beq }

-- TRANSPORT_ERROR_KINDS
abbrev pub transport_error_kinds : List ErrorKind
transport_error_kinds = refused ∷ dns ∷ timeout ∷ tls ∷ other_error ∷ []
