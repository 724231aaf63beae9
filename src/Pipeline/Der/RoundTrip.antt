-- ===== src/Pipeline/Der/RoundTrip.antt =====
-- A pair of numbers, written as DER and read back.
use testing_hq.Prelude.{
  ℕ, zero, suc, ◌≤◌, ◌<◌, ◌≡◌, refl, ap, sym, ◌∙◌, false, List, [], ◌∷◌, ◌++◌, arith, length,
  length-append, if◌then◌else◌,
}
use mathlib.Core.Path.{ap₂}
use testing_hq.Pipeline.Der.{
  Bytes, ok, Child, to_bytes, from_bytes, high_bit, der_len, der_int, take_value, der_read,
  children_fuel, der_children, pair_of, der_signature, parse_der_signature,
}
use testing_hq.Pipeline.Der.Bytes.{
  byte_count, byte_count_fits, byte_count_at_most, from_bytes-to_bytes, length-to_bytes, take_whole,
  drop_whole, two_to,
}

der_len_short : (n : ℕ) → n < 128 → der_len n ≡ n ∷ []
unfolding der_len
der_len_short n h = ground arith

-- The bytes of a number behind its tag and its length.
abbrev int_body : ℕ → Bytes
int_body n =
    if high_bit (to_bytes (byte_count n) n)
    then 0 ∷ to_bytes (byte_count n) n
    else to_bytes (byte_count n) n

from_bytes-int_body : (n : ℕ) → from_bytes 0 (int_body n) ≡ n
unfolding from_bytes
from_bytes-int_body n = ground (arith, from_bytes-to_bytes (byte_count n) n (byte_count_fits n))

length-int_body : (n : ℕ) → n < two_to 256 → length (int_body n) ≤ 33
length-int_body n h = ground (arith, length-to_bytes (byte_count n) n, byte_count_at_most n h)

der_int-eq : (n : ℕ) → n < two_to 256 → der_int n ≡ 2 ∷ length (int_body n) ∷ int_body n
unfolding der_int
der_int-eq n h =
    ap (λ l. 2 ∷ (l ++ int_body n))
      (der_len_short (length (int_body n)) (omega (arith, length-int_body n h)))

take_value_whole :
    (tag : ℕ) (xs ys : Bytes)
    → take_value tag (length xs) (xs ++ ys) false
      ≡ ok (record { tag = tag; value = xs; rest = ys; past = false })
unfolding take_value
take_value_whole tag xs ys = ground (arith, take_whole xs ys, drop_whole xs ys)

-- A value of less than 128 bytes is read back from behind its length.
der_read_short :
    (tag : ℕ) (xs ys : Bytes)
    → length xs < 128
    → der_read (tag ∷ length xs ∷ (xs ++ ys))
      ≡ ok (record { tag = tag; value = xs; rest = ys; past = false })
unfolding der_read
der_read_short tag xs ys h = ground (arith, take_value_whole tag xs ys)

children_none : (fuel : ℕ) → children_fuel fuel [] ≡ ok []
unfolding children_fuel
children_none zero = refl
children_none (suc fuel) = refl

children_next :
    (fuel tag : ℕ) (xs ys : Bytes) (cs : List Child)
    → length xs < 128
    → children_fuel fuel ys ≡ ok cs
    → children_fuel (suc fuel) (tag ∷ length xs ∷ (xs ++ ys))
      ≡ ok (record { tag = tag; value = xs } ∷ cs)
unfolding children_fuel
children_next fuel tag xs ys cs h rest = ground (arith, der_read_short tag xs ys h)

append_nil : (xs : Bytes) → xs ++ [] ≡ xs
append_nil [] = refl
append_nil (x ∷ xs) = ap (λ s. x ∷ s) (append_nil xs)

-- Two values, one behind the other.
two_values : Bytes → Bytes → Bytes
two_values xs ys = 2 ∷ length xs ∷ (xs ++ 2 ∷ length ys ∷ ys)

two_children :
    (xs ys : Bytes)
    → length xs < 128
    → length ys < 128
    → der_children (two_values xs ys)
      ≡ ok (record { tag = 2; value = xs } ∷ record { tag = 2; value = ys } ∷ [])
unfolding der_children two_values
two_children xs ys hx hy =
    children_next (suc (length (xs ++ 2 ∷ length ys ∷ ys))) 2 xs (2 ∷ length ys ∷ ys)
      (record { tag = 2; value = ys } ∷ []) hx
      (ap (λ s. children_fuel (suc (length (xs ++ 2 ∷ length ys ∷ ys))) (2 ∷ length ys ∷ s))
          (sym (append_nil ys))
        ∙ children_next (length (xs ++ 2 ∷ length ys ∷ ys)) 2 ys [] [] hy
            (children_none (length (xs ++ 2 ∷ length ys ∷ ys))))

two_ints : ℕ → ℕ → Bytes
unfolding two_values
two_ints r s = two_values (int_body r) (int_body s)

length-two_ints : (r s : ℕ) → r < two_to 256 → s < two_to 256 → length (two_ints r s) < 128
unfolding two_ints two_values
length-two_ints r s hr hs = omega (
  arith,
  length-append (int_body r) (2 ∷ length (int_body s) ∷ int_body s),
  length-int_body r hr,
  length-int_body s hs,
)

body-eq : (r s : ℕ) → r < two_to 256 → s < two_to 256 → der_int r ++ der_int s ≡ two_ints r s
unfolding two_ints two_values
body-eq r s hr hs = ap₂ (λ x y. x ++ y) (der_int-eq r hr) (der_int-eq s hs)

der_signature-eq :
    (r s : ℕ)
    → r < two_to 256
    → s < two_to 256
    → der_signature r s ≡ 48 ∷ length (two_ints r s) ∷ (two_ints r s ++ [])
unfolding der_signature
der_signature-eq r s hr hs =
    ap (λ b. 48 ∷ (der_len (length b) ++ b)) (body-eq r s hr hs)
    ∙ ap (λ l. 48 ∷ (l ++ two_ints r s))
        (der_len_short (length (two_ints r s)) (length-two_ints r s hr hs))
    ∙ ap (λ t. 48 ∷ length (two_ints r s) ∷ t) (sym (append_nil (two_ints r s)))

pair_of-ints :
    (r s : ℕ)
    → pair_of (record { tag = 2; value = int_body r } ∷ record { tag = 2; value = int_body s } ∷ [])
      ≡ ok (r, s)
unfolding pair_of
pair_of-ints r s = ground (arith, from_bytes-int_body r, from_bytes-int_body s)

-- Where r and s have at most 256 bits, the DER of the pair is read back as the pair.
pub parse_der_signature-der_signature :
    (r s : ℕ)
    → r < two_to 256
    → s < two_to 256
    → parse_der_signature (der_signature r s) ≡ ok (r, s)
unfolding parse_der_signature two_ints
parse_der_signature-der_signature r s hr hs = ground (
  arith,
  der_signature-eq r s hr hs,
  der_read_short 48 (two_ints r s) [] (length-two_ints r s hr hs),
  two_children (int_body r) (int_body s) (omega (arith, length-int_body r hr))
      (omega (arith, length-int_body s hs)),
  pair_of-ints r s,
)
