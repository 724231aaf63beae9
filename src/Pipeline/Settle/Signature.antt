-- ===== src/Pipeline/Settle/Signature.antt =====
-- `_signature`: the readbacks of one tag in a fixed order, so that a store that lists the same
-- records in another order has not changed. `repr` stands for Python's `repr` of a readback.
use mathlib.Core.List.{Perm}
use testing_hq.Prelude.{◌≡◌, Bool, true, none, some, List, [], arith, if◌then◌else◌, ◌⊎◌}
use testing_hq.Prelude.Sort.{sort_by, IsOrder, sort_by-perm}
use testing_hq.Prelude.Text.{Text, text_beq, text_beq_iff}
use testing_hq.Prelude.TextOrder.{text_leb, text_leb_total, text_leb_antisymm, text_leb_trans}
use testing_hq.Pipeline.Readback.{Readback, Readback-discrete}

abbrev ticket_key : Readback → Text
ticket_key r = elim r.ticket_id [ none ↦ [] | some t ↦ t ]

module _ (repr : Readback → Text) where
  -- The order of the keys (r.ticket_id or "", repr(r)).
  pub key_leb : Readback → Readback → Bool
  key_leb a b =
      if text_beq (ticket_key a) (ticket_key b)
      then text_leb (repr a) (repr b)
      else text_leb (ticket_key a) (ticket_key b)

  -- `_signature`
  unfoldable pub signature : List Readback → List Readback
  unfolding key_leb
  signature = sort_by key_leb

  module _ (repr_injective : (a b : Readback) → repr a ≡ repr b → a ≡ b) where
    key_leb_total : (a b : Readback) → (key_leb a b ≡ true) ⊎ (key_leb b a ≡ true)
    unfolding key_leb
    key_leb_total a b = ground (
      arith,
      text_leb_total (repr a) (repr b),
      text_leb_total (ticket_key a) (ticket_key b),
      text_beq_iff (ticket_key a) (ticket_key b),
      text_beq_iff (ticket_key b) (ticket_key a),
    )

    key_leb_antisymm : (a b : Readback) → key_leb a b ≡ true → key_leb b a ≡ true → a ≡ b
    unfolding key_leb
    key_leb_antisymm a b h k = ground (
      arith,
      text_leb_antisymm (repr a) (repr b),
      repr_injective a b,
      text_leb_antisymm (ticket_key a) (ticket_key b),
      text_beq_iff (ticket_key a) (ticket_key b),
      text_beq_iff (ticket_key b) (ticket_key a),
    )

    key_leb_trans :
        (a b c : Readback) → key_leb a b ≡ true → key_leb b c ≡ true → key_leb a c ≡ true
    unfolding key_leb
    key_leb_trans a b c h k = ground (
      arith,
      text_leb_trans (repr a) (repr b) (repr c),
      text_leb_trans (ticket_key a) (ticket_key b) (ticket_key c),
      text_leb_antisymm (ticket_key a) (ticket_key b),
      text_beq_iff (ticket_key a) (ticket_key b),
      text_beq_iff (ticket_key b) (ticket_key c),
      text_beq_iff (ticket_key a) (ticket_key c),
    )

    key_leb-IsOrder : IsOrder key_leb
    key_leb-IsOrder = record {
      total = key_leb_total;
      antisymm = key_leb_antisymm;
      transitive = key_leb_trans;
    }

    -- The order in which a store lists the records of a tag is not part of what is watched.
    pub signature-perm : (xs ys : List Readback) → Perm xs ys → signature xs ≡ signature ys
    unfolding signature
    signature-perm xs ys p = sort_by-perm key_leb key_leb-IsOrder Readback-discrete xs ys p
