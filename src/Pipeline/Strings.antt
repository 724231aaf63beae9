-- ===== src/Pipeline/Strings.antt =====
-- What testinghq/pipeline uses of Python's `str` and of Unicode: `s.strip()`, `s.lower()`,
-- `s.splitlines()`, and the classes `\d` and `\s` of `re`.
use testing_hq.Prelude.{ℕ, ◌≡◌, Bool, true, List}
use testing_hq.Prelude.Text.{Text}
use testing_hq.Prelude.Decimal.{is_decimal}

pub record Strings : Type 0 where
  pub strip : Text → Text
  pub lower : Text → Text
  pub split_lines : Text → List Text
  pub is_digit : ℕ → Bool
  pub is_space : ℕ → Bool

-- What is relied on: 0 to 9 are digits.
pub record HasDigits (py : Strings) : Type 0 where
  pub decimal_is_digit : (c : ℕ) → is_decimal c ≡ true → py.is_digit c ≡ true
