-- ===== src/Pipeline/Der/Fuel.antt =====
-- That the loop of `_der_children` ends: every round leaves fewer bytes.
use testing_hq.Prelude.{
  ℕ, zero, suc, ◌%◌, ◌≤◌, ◌≡◌, ◌⊎◌, inl, inr, refl, Bool, false, [], ◌∷◌, arith, length, take, ltb,
}
use mathlib.Core.Path.{subst}
use testing_hq.Pipeline.Der.{
  Bytes, DerError, Tlv, Result, ok, err, from_bytes, drop, take_value, der_read, children_fuel,
  der_children,
}

length-drop : (n : ℕ) (bs : Bytes) → length (drop n bs) ≤ length bs
unfolding drop
length-drop zero bs = omega arith
length-drop (suc n) [] = omega arith
length-drop (suc n) (b ∷ bs) = omega (arith, length-drop n bs)

Result-cases :
    {A : Type 0} (r : Result A) → ((why : DerError) × (r ≡ err why)) ⊎ ((a : A) × (r ≡ ok a))
Result-cases (ok a) = inr (a, refl)
Result-cases (err why) = inl (why, refl)

abbrev Leaves : ℕ → Result Tlv → Type 0
Leaves n (ok t) = length t.rest ≤ n
Leaves n (err why) = Unit

take_value-Leaves :
    (tag n : ℕ) (bs : Bytes) (past : Bool) → Leaves (length bs) (take_value tag n bs past)
unfolding take_value
take_value-Leaves tag n bs past = ground (arith, length-drop n bs)

Leaves-less : (m n : ℕ) (r : Result Tlv) → m ≤ n → Leaves m r → Leaves n r
Leaves-less m n (ok t) h l = omega arith
Leaves-less m n (err why) h l = tt

-- What is left behind a value is shorter by its tag and its length.
der_read-Leaves : (b : ℕ) (bs : Bytes) → Leaves (length bs) (der_read (b ∷ bs))
unfolding der_read
der_read-Leaves b [] = tt
der_read-Leaves b (l ∷ rest) = ground (
  arith,
  take_value-Leaves b l rest false,
  Leaves-less (length rest) (suc (length rest)) (take_value b l rest false) (omega arith)
      (take_value-Leaves b l rest false),
  Leaves-less (length (drop (l % 128) rest)) (suc (length rest))
      (take_value b (from_bytes 0 (take (l % 128) rest)) (drop (l % 128) rest)
        (ltb (length rest) (l % 128)))
      (omega (arith, length-drop (l % 128) rest))
      (take_value-Leaves b (from_bytes 0 (take (l % 128) rest)) (drop (l % 128) rest)
        (ltb (length rest) (l % 128))),
)

children_enough :
    (f g : ℕ) (bs : Bytes) → length bs ≤ f → length bs ≤ g → children_fuel f bs ≡ children_fuel g bs
unfolding children_fuel
children_enough f g [] h i = ground arith
children_enough zero g (b ∷ bs) h i = ground arith
children_enough (suc f) zero (b ∷ bs) h i = ground arith
children_enough (suc f) (suc g) (b ∷ bs) h i = elim (Result-cases (der_read (b ∷ bs))) [
  | inl (why, e) ↦ ground arith
  | inr (t, e) ↦
      let left : length t.rest ≤ length bs = subst (Leaves (length bs)) e (der_read-Leaves b bs) in
      ground (arith, children_enough f g t.rest (omega (arith, left)) (omega (arith, left)))
]

-- With as many rounds as there are bytes, or more, the loop gives what _der_children gives.
pub children_fuel-der_children :
    (fuel : ℕ) (bs : Bytes) → length bs ≤ fuel → children_fuel fuel bs ≡ der_children bs
unfolding der_children
children_fuel-der_children fuel bs h = children_enough fuel (length bs) bs h (omega arith)
