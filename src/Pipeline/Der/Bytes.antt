-- ===== src/Pipeline/Der/Bytes.antt =====
-- Numbers as bytes and back.
use testing_hq.Prelude.{
  ℕ, zero, suc, ◌+◌, ◌*◌, ◌/◌, ◌%◌, ◌≤◌, ◌<◌, ◌≡◌, refl, ap, [], ◌∷◌, ◌++◌, arith, length,
  length-append, take,
}
use Prim.Native.Nat.{max}
use testing_hq.Pipeline.Der.{Bytes, bits_fuel, bit_length, to_bytes, from_bytes, drop}

-- 2 ^ k and 256 ^ k
unfoldable pub two_to : ℕ → ℕ
two_to zero = 1
two_to (suc k) = 2 * two_to k

unfoldable pub bytes_to : ℕ → ℕ
bytes_to zero = 1
bytes_to (suc k) = 256 * bytes_to k

bits_enough : (f n : ℕ) → n ≤ f → n < two_to (bits_fuel f n)
unfolding bits_fuel two_to
bits_enough zero n h = omega arith
bits_enough (suc f) n h = ground (arith, bits_enough f (n / 2))

bits_at_most : (f n k : ℕ) → n < two_to k → bits_fuel f n ≤ k
unfolding bits_fuel two_to
bits_at_most zero n k h = omega arith
bits_at_most (suc f) n zero h = ground arith
bits_at_most (suc f) n (suc k) h = ground (arith, bits_at_most f (n / 2) k)

two_to-le : (j k : ℕ) → j ≤ k → two_to j ≤ two_to k
unfolding two_to
two_to-le zero zero h = omega arith
two_to-le zero (suc k) h = omega (arith, two_to-le zero k (omega arith))
two_to-le (suc j) zero h = omega arith
two_to-le (suc j) (suc k) h = omega (arith, two_to-le j k (omega arith))

eight_more : (k : ℕ) → 8 * suc k ≡ suc (suc (suc (suc (suc (suc (suc (suc (8 * k))))))))
eight_more k = omega arith

two_to_add8 : (m : ℕ) → two_to (suc (suc (suc (suc (suc (suc (suc (suc m)))))))) ≡ 256 * two_to m
unfolding two_to
two_to_add8 m = omega arith

bytes_to-two_to : (k : ℕ) → bytes_to k ≡ two_to (8 * k)
unfolding bytes_to two_to
bytes_to-two_to zero = refl
bytes_to-two_to (suc k) =
    omega (arith, bytes_to-two_to k, two_to_add8 (8 * k), ap two_to (eight_more k))

pub from_bytes-append :
    (acc : ℕ) (xs ys : Bytes) → from_bytes acc (xs ++ ys) ≡ from_bytes (from_bytes acc xs) ys
unfolding from_bytes
from_bytes-append acc [] ys = refl
from_bytes-append acc (x ∷ xs) ys = from_bytes-append (acc * 256 + x) xs ys

pub from_bytes-to_bytes : (k n : ℕ) → n < bytes_to k → from_bytes 0 (to_bytes k n) ≡ n
unfolding from_bytes to_bytes bytes_to
from_bytes-to_bytes zero n h = omega arith
from_bytes-to_bytes (suc k) n h = omega (
  arith,
  from_bytes-append 0 (to_bytes k (n / 256)) (n % 256 ∷ []),
  from_bytes-to_bytes k (n / 256) (omega arith),
)

pub length-to_bytes : (k n : ℕ) → length (to_bytes k n) ≡ k
unfolding to_bytes
length-to_bytes zero n = refl
length-to_bytes (suc k) n =
    omega (arith, length-to_bytes k (n / 256), length-append (to_bytes k (n / 256)) (n % 256 ∷ []))

-- The bytes that `_der_int` writes.
abbrev pub byte_count : ℕ → ℕ
byte_count n = max 1 ((bit_length n + 7) / 8)

pub byte_count_fits : (n : ℕ) → n < bytes_to (byte_count n)
unfolding bit_length
byte_count_fits n = omega (
  arith,
  bits_enough n n (omega arith),
  bytes_to-two_to (byte_count n),
  two_to-le (bit_length n) (8 * byte_count n) (omega arith),
)

-- A number of 256 bits has at most 32 bytes.
pub byte_count_at_most : (n : ℕ) → n < two_to 256 → byte_count n ≤ 32
unfolding bit_length
byte_count_at_most n h = omega (arith, bits_at_most n n 256 h)

pub take_whole : (xs ys : Bytes) → take (length xs) (xs ++ ys) ≡ xs
take_whole [] ys = refl
take_whole (x ∷ xs) ys = ap (λ s. x ∷ s) (take_whole xs ys)

pub drop_whole : (xs ys : Bytes) → drop (length xs) (xs ++ ys) ≡ ys
unfolding drop
drop_whole [] ys = refl
drop_whole (x ∷ xs) ys = drop_whole xs ys
