-- ===== src/Compare/Align.antt =====
-- `_record_key` and `_align` of testinghq/compare/runs.py.
use testing_hq.Prelude.{
  ℕ, ◌+◌, ◌≡◌, refl, ap, ◌∙◌, ◌↔◌, Bool, true, false, Option, none, some, List, [], ◌∷◌, arith,
  nat_beq, Bool-cases, inl, inr, Eq, ◌==◌, if◌then◌else◌,
}
use testing_hq.Prelude.Text.{Text, text_beq, text_beq_iff}
use testing_hq.Prelude.Dict.{Dict, keys, lookup, insert, lookup-insert}
use testing_hq.Prelude.Distinct.{Distinct, insert-Distinct}
use testing_hq.Core.Report.{Record}

pub data Key : Type 0 where
  by_id : Text → Key
  by_index : ℕ → Key

abbrev pub key_beq : Key → Key → Bool
key_beq (by_id s) (by_id t) = text_beq s t
key_beq (by_index m) (by_index n) = nat_beq m n
key_beq _ _ = false

pub key_beq_iff : (a b : Key) → (key_beq a b ≡ true) ↔ (a ≡ b)
key_beq_iff (by_id s) (by_id t) = ground (arith, text_beq_iff s t)
key_beq_iff (by_id s) (by_index n) = ground arith
key_beq_iff (by_index m) b = ground arith

instance abbrev pub key_eq : Eq Key
key_eq = record { equals_iff = key_beq_iff; equals = key_beq }

abbrev pub key_for : Option Text → ℕ → Key
key_for none index = by_index index
key_for (some []) index = by_index index
key_for (some (c ∷ t)) index = by_id (c ∷ t)

-- `_record_key`
unfoldable pub record_key : Record → ℕ → Key
record_key r index = key_for r.id index

abbrev pub is_index : Key → Bool
is_index (by_id t) = false
is_index (by_index n) = true

pub record Aligned : Type 0 where
  pub keyed : Dict Key Record
  pub positional : Bool

-- The loop over `enumerate(records)`.
pub align_from : ℕ → List Record → Aligned → Aligned
unfolding record_key
align_from index [] a = a
align_from index (r ∷ rs) a =
    let key = record_key r index in
    align_from (index + 1) rs (record {
      keyed = insert key r a.keyed;
      positional = (if is_index key then true else a.positional);
    })

-- `_align`
unfoldable pub align : List Record → Aligned
unfolding align_from
align records = align_from 0 records (record { keyed = []; positional = false })

-- The last of the records with a given key.
pub last_with : Key → ℕ → List Record → Option Record → Option Record
last_with k index [] found = found
last_with k index (r ∷ rs) found =
    last_with k (index + 1) rs (if record_key r index == k then some r else found)

lookup-align_from :
    (k : Key) (index : ℕ) (rs : List Record) (a : Aligned)
    → lookup k (align_from index rs a).keyed ≡ last_with k index rs (lookup k a.keyed)
unfolding align_from last_with
lookup-align_from k index [] a = refl
lookup-align_from k index (r ∷ rs) a =
    let key = record_key r index in
    lookup-align_from k (index + 1) rs (record {
      keyed = insert key r a.keyed;
      positional = (if is_index key then true else a.positional);
    })
    ∙ ap (last_with k (index + 1) rs) (lookup-insert key k r a.keyed)

-- Of several records with one id the last is compared; a record without an id has its position
-- for a key.
pub lookup-align : (k : Key) (rs : List Record) → lookup k (align rs).keyed ≡ last_with k 0 rs none
unfolding align lookup
lookup-align k rs = lookup-align_from k 0 rs (record { keyed = []; positional = false })

align_from-Distinct :
    (index : ℕ) (rs : List Record) (a : Aligned)
    → Distinct (keys a.keyed)
    → Distinct (keys (align_from index rs a).keyed)
unfolding align_from
align_from-Distinct index [] a h = h
align_from-Distinct index (r ∷ rs) a h =
    align_from-Distinct (index + 1) rs _ (insert-Distinct (record_key r index) r a.keyed h)

pub align-Distinct : (rs : List Record) → Distinct (keys (align rs).keyed)
unfolding align
align-Distinct rs = align_from-Distinct 0 rs (record { keyed = []; positional = false }) tt

last_with-some :
    (k : Key) (index : ℕ) (rs : List Record) (r : Record)
    → (r' : Record) × (last_with k index rs (some r) ≡ some r')
unfolding last_with
last_with-some k index [] r = (r, refl)
last_with-some k index (x ∷ rs) r = elim (Bool-cases (record_key x index == k)) [
  | inl same ↦ rw same (last_with-some k (index + 1) rs x)
  | inr other ↦ rw other (last_with-some k (index + 1) rs r)
]

-- The first record's key is a key of the dict.
pub first_key :
    (r : Record) (rs : List Record)
    → (r' : Record) × (lookup (record_key r 0) (align (r ∷ rs)).keyed ≡ some r')
first_key r rs =
    rw lookup-align
      (unfold last_with in rw ((key_beq_iff _ _).1 refl) (last_with-some (record_key r 0) 1 rs r))
