-- ===== src/Pipeline/Der.antt =====
-- The DER of testinghq/pipeline/sigcheck.py: `_der_len`, `_der_int`, `_der_read`, `_der_children`,
-- `der_signature` and `parse_der_signature`. Bytes are a list of numbers below 256. The offset into
-- the data is kept as the bytes behind it, and as whether it lies behind their end.
mod Bytes
mod Fuel
mod RoundTrip
mod Examples
use testing_hq.Prelude.{
  ℕ, zero, suc, ◌+◌, ◌*◌, ◌/◌, ◌%◌, Bool, true, false, not, ◌&&◌, ◌||◌, List, [], ◌∷◌, ◌++◌, length,
  take, all, leb, ltb, nat_beq, is_empty, if◌then◌else◌,
}
use Prim.Native.Nat.{max}

abbrev pub Bytes : Type 0
Bytes = List ℕ

-- n.bit_length(), on fuel; a number has at most as many bits as its value.
unfoldable pub bits_fuel : ℕ → ℕ → ℕ
bits_fuel zero n = 0
bits_fuel (suc f) n = let rest = bits_fuel f (n / 2) in if nat_beq n 0 then 0 else suc rest

unfoldable pub bit_length : ℕ → ℕ
unfolding bits_fuel
bit_length n = bits_fuel n n

-- n.to_bytes(k, "big"), where n fits
unfoldable pub to_bytes : ℕ → ℕ → Bytes
to_bytes zero n = []
to_bytes (suc k) n = to_bytes k (n / 256) ++ n % 256 ∷ []

-- int.from_bytes(bs, "big"), behind the bytes that gave `acc`
unfoldable pub from_bytes : ℕ → Bytes → ℕ
from_bytes acc [] = acc
from_bytes acc (b ∷ bs) = from_bytes (acc * 256 + b) bs

unfoldable pub drop : ℕ → Bytes → Bytes
drop zero bs = bs
drop (suc n) [] = []
drop (suc n) (b ∷ bs) = drop n bs

-- 0x80 | k
abbrev pub or_128 : ℕ → ℕ
or_128 k = if nat_beq (k / 128 % 2) 1 then k else k + 128

unfoldable pub der_len : ℕ → Bytes
unfolding bit_length to_bytes
der_len n =
    let raw = to_bytes ((bit_length n + 7) / 8) n in
    if ltb n 128 then n ∷ [] else or_128 (length raw) ∷ raw

-- raw[0] & 0x80
abbrev pub high_bit : Bytes → Bool
high_bit [] = false
high_bit (b ∷ bs) = leb 128 b

unfoldable pub der_int : ℕ → Bytes
unfolding bit_length to_bytes der_len
der_int value =
    let raw = to_bytes (max 1 ((bit_length value + 7) / 8)) value in
    let padded = (if high_bit raw then 0 ∷ raw else raw) in 2 ∷ (der_len (length padded) ++ padded)

pub data DerError : Type 0 where
  truncated unsupported_length not_a_sequence not_a_pair : DerError

-- What stands at an offset: the tag, the value, the bytes behind it, and whether the next offset
-- lies behind the end of the data.
pub record Tlv : Type 0 where
  pub tag : ℕ
  pub value : Bytes
  pub rest : Bytes
  pub past : Bool

pub data Result (A : Type 0) : Type 0 where
  ok : A → Result A
  err : DerError → Result A

-- The value of `n` bytes and what follows.
unfoldable pub take_value : ℕ → ℕ → Bytes → Bool → Result Tlv
unfolding drop
take_value tag n data_ past =
    let value = take n data_ in
    if nat_beq (length value) n
    then ok (record { tag = tag; value = value; rest = drop n data_; past = past })
    else err truncated

-- `_der_read`. A long length is taken from what there is, also where bytes of it are missing.
unfoldable pub der_read : Bytes → Result Tlv
unfolding take_value from_bytes drop
der_read [] = err truncated
der_read (tag ∷ []) = err truncated
der_read (tag ∷ l ∷ rest) =
    let count = l % 128 in
    let long =
      take_value tag (from_bytes 0 (take count rest)) (drop count rest) (ltb (length rest) count) in
    if ltb l 128
    then take_value tag l rest false
    else if nat_beq count 0 || ltb 4 count
    then err unsupported_length
    else long

pub record Child : Type 0 where
  pub tag : ℕ
  pub value : Bytes

-- The loop of `_der_children`; every round takes two bytes or more, so as many rounds as there are
-- bytes are enough.
unfoldable pub children_fuel : ℕ → Bytes → Result (List Child)
unfolding der_read
children_fuel fuel [] = ok []
children_fuel zero (b ∷ bs) = ok []
children_fuel (suc fuel) (b ∷ bs) = elim (der_read (b ∷ bs)) [
  | err why ↦ err why
  | ok t ↦ elim (children_fuel fuel t.rest) [
    | err why ↦ err why
    | ok cs ↦ ok (record { tag = t.tag; value = t.value } ∷ cs)
  ]
]

unfoldable pub der_children : Bytes → Result (List Child)
unfolding children_fuel
der_children bs = children_fuel (length bs) bs

unfoldable pub der_signature : ℕ → ℕ → Bytes
unfolding der_int der_len
der_signature r s = let body = der_int r ++ der_int s in 48 ∷ (der_len (length body) ++ body)

unfoldable pub pair_of : List Child → Result (ℕ × ℕ)
unfolding from_bytes
pair_of [] = err not_a_pair
pair_of (c ∷ []) = err not_a_pair
pair_of (c ∷ d ∷ []) =
    if nat_beq c.tag 2 && nat_beq d.tag 2
    then ok (from_bytes 0 c.value, from_bytes 0 d.value)
    else err not_a_pair
pair_of (c ∷ d ∷ e ∷ cs) = err not_a_pair

unfoldable pub parse_der_signature : Bytes → Result (ℕ × ℕ)
unfolding der_read der_children pair_of
parse_der_signature bs = elim (der_read bs) [
  | err why ↦ err why
  | ok t ↦
      if not (nat_beq t.tag 48) || (t.past || not (is_empty t.rest))
      then err not_a_sequence
      else elim (der_children t.value) [ err why ↦ err why | ok cs ↦ pair_of cs ]
]
