-- ===== src/Prelude/Text.antt =====
-- Python's `str` as the list of its code points.
use Prim.Native.Nat.{ℕ}
use Prim.Native.Char.{code}
use Prim.Native.String.{String}
use mathlib.Core.Path.{◌≡◌, refl}
use mathlib.Core.Logic.{◌↔◌}
use mathlib.Core.Bool.{Bool, true, false, ◌&&◌, ◌||◌}
use mathlib.Core.List.{List, [], ◌∷◌, ◌++◌}
use mathlib.Core.Option.{Option, none, some}
use native.Mathlib.Omega.{arith}
use testing_hq.Prelude.Tests.{nat_beq, Eq, if◌then◌else◌, is_some}

abbrev pub Text : Type 0
Text = List ℕ

abbrev pub codes : String → Text
codes String.[] = []
codes (String.◌∷◌ c s) = code c ∷ codes s

abbrev pub text_beq : Text → Text → Bool
text_beq [] [] = true
text_beq [] (d ∷ t) = false
text_beq (c ∷ s) [] = false
text_beq (c ∷ s) (d ∷ t) = nat_beq c d && text_beq s t

pub text_beq_iff : (s t : Text) → (text_beq s t ≡ true) ↔ (s ≡ t)
text_beq_iff [] [] = ground arith
text_beq_iff [] (d ∷ t) = ground arith
text_beq_iff (c ∷ s) [] = ground arith
text_beq_iff (c ∷ s) (d ∷ t) = ground (arith, text_beq_iff s t)

instance abbrev pub text_eq : Eq Text
text_eq = record { equals_iff = text_beq_iff; equals = text_beq }

-- The rest of a text behind a prefix, if it has that prefix.
unfoldable pub strip_prefix : Text → Text → Option Text
strip_prefix [] t = some t
strip_prefix (c ∷ s) [] = none
strip_prefix (c ∷ s) (d ∷ t) = if nat_beq c d then strip_prefix s t else none

pub strip_prefix-append : (s t : Text) → strip_prefix s (s ++ t) ≡ some t
unfolding strip_prefix
strip_prefix-append [] t = refl
strip_prefix-append (c ∷ s) t = ground (arith, strip_prefix-append s t)

pub strip_prefix_sound : (s t r : Text) → strip_prefix s t ≡ some r → t ≡ s ++ r
unfolding strip_prefix
strip_prefix_sound [] t r h = ground arith
strip_prefix_sound (c ∷ s) [] r h = ground arith
strip_prefix_sound (c ∷ s) (d ∷ t) r h = ground (arith, strip_prefix_sound s t r)

pub strip_prefix_other :
    (c d : ℕ) (s t : Text) → nat_beq c d ≡ false → strip_prefix (c ∷ s) (d ∷ t) ≡ none
unfolding strip_prefix
strip_prefix_other c d s t h = ground arith

-- `needle in text`
unfoldable pub has_infix : Text → Text → Bool
has_infix needle [] = is_some (strip_prefix needle [])
has_infix needle (c ∷ t) = is_some (strip_prefix needle (c ∷ t)) || has_infix needle t
