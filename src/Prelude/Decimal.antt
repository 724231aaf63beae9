-- ===== src/Prelude/Decimal.antt =====
-- Decimal notation of numbers: `str(n)` and `f"{n:04d}"`.
use Prim.Native.Nat.{ℕ, zero, suc, ◌+◌, ◌-◌, ◌/◌, ◌%◌, ◌≤◌}
use mathlib.Core.Path.{◌≡◌, refl}
use mathlib.Core.Bool.{Bool, true, false, ◌&&◌}
use mathlib.Core.List.{[], ◌∷◌, ◌++◌}
use native.Mathlib.Omega.{arith}
use testing_hq.Prelude.Tests.{ltb, leb, if◌then◌else◌}
use testing_hq.Prelude.Lists.{length, length-append, all, all-append, is_empty}
use testing_hq.Prelude.Text.{Text}

abbrev pub digit_char : ℕ → ℕ
digit_char d = 48 + d

-- The digits of `n`, on fuel; a number has fewer digits than its own value plus one.
digits_fuel : ℕ → ℕ → Text
digits_fuel zero n = []
digits_fuel (suc f) n =
    let rest = digits_fuel f (n / 10) ++ digit_char (n % 10) ∷ [] in
    if ltb n 10 then digit_char n ∷ [] else rest

-- str(n)
unfoldable pub decimal : ℕ → Text
unfolding digits_fuel
decimal n = digits_fuel (suc n) n

pub zeros : ℕ → Text
zeros zero = []
zeros (suc k) = 48 ∷ zeros k

-- f"{n:0wd}"
unfoldable pub padded : ℕ → ℕ → Text
unfolding decimal zeros
padded w n = zeros (w - length (decimal n)) ++ decimal n

-- The digits 0 to 9.
abbrev pub is_decimal : ℕ → Bool
is_decimal c = leb 48 c && leb c 57

digits_fuel-all : (f n : ℕ) → all is_decimal (digits_fuel f n) ≡ true
unfolding digits_fuel
digits_fuel-all zero n = refl
digits_fuel-all (suc f) n = ground (
  arith,
  digits_fuel-all f (n / 10),
  all-append is_decimal (digits_fuel f (n / 10)) (digit_char (n % 10) ∷ []),
)

pub decimal-all : (n : ℕ) → all is_decimal (decimal n) ≡ true
unfolding decimal
decimal-all n = digits_fuel-all (suc n) n

is_empty-snoc : (s : Text) (c : ℕ) → is_empty (s ++ c ∷ []) ≡ false
is_empty-snoc [] c = refl
is_empty-snoc (d ∷ s) c = refl

pub decimal_nonempty : (n : ℕ) → is_empty (decimal n) ≡ false
unfolding decimal digits_fuel
decimal_nonempty n = ground (arith, is_empty-snoc (digits_fuel n (n / 10)) (digit_char (n % 10)))

zeros-all : (k : ℕ) → all is_decimal (zeros k) ≡ true
unfolding zeros
zeros-all zero = refl
zeros-all (suc k) = zeros-all k

length-zeros : (k : ℕ) → length (zeros k) ≡ k
unfolding zeros
length-zeros zero = refl
length-zeros (suc k) = omega (arith, length-zeros k)

pub padded-all : (w n : ℕ) → all is_decimal (padded w n) ≡ true
unfolding padded
padded-all w n = ground (
  arith,
  all-append is_decimal (zeros (w - length (decimal n))) (decimal n),
  decimal-all n,
  zeros-all (w - length (decimal n)),
)

pub length-padded : (w n : ℕ) → w ≤ length (padded w n)
unfolding padded
length-padded w n = omega (
  arith,
  length-append (zeros (w - length (decimal n))) (decimal n),
  length-zeros (w - length (decimal n)),
)
