-- ===== src/Core/Guardrails/Synthetic.antt =====
-- What a run's addresses have to be.
use testing_hq.Prelude.{
  ◌≡◌, ◌↔◌, Bool, true, false, not, ◌&&◌, List, [], ◌∷◌, arith, all, keep_if, is_empty,
}
use testing_hq.Prelude.Text.{Text, text_eq}
use testing_hq.Core.Guardrails.{
  Net, is_synthetic_address, synthetic, check_addresses, holds_text, require_synthetic_content,
}

module _ (net : Net) where
  abbrev pub good_address : Text → Bool
  good_address a = not (is_empty a) && is_synthetic_address net a

  check_addresses_iff :
      (as' : List Text) → (check_addresses net as' ≡ synthetic) ↔ (all good_address as' ≡ true)
  unfolding check_addresses
  check_addresses_iff [] = ground arith
  check_addresses_iff (a ∷ rest) = ground (arith, check_addresses_iff rest)

  -- Content passes if and only if its fields that hold text have an address, and every address of
  -- them is given and synthetic.
  pub require_synthetic_content_iff :
      (emails : List Text)
      → (require_synthetic_content net emails ≡ synthetic) ↔ (
          (is_empty (net.get_addresses (keep_if (holds_text net) emails)) ≡ false)
          × (all good_address (net.get_addresses (keep_if (holds_text net) emails)) ≡ true))
  unfolding require_synthetic_content
  require_synthetic_content_iff emails =
      ground (arith, check_addresses_iff (net.get_addresses (keep_if (holds_text net) emails)))
