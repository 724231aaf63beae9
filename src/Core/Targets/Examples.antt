-- ===== src/Core/Targets/Examples.antt =====
-- A configuration with a public and a private target, and addresses of two kinds.
use testing_hq.Prelude.{◌≡◌, ◌↔◌, true, false, none, some, List, [], ◌∷◌, all, keep_if, is_empty}
use testing_hq.Prelude.Text.{Text, codes}
use testing_hq.Prelude.Dict.{Dict}
use testing_hq.Core.Guardrails.{Net, synthetic, require_synthetic_content, holds_text}
use testing_hq.Core.Guardrails.Synthetic.{good_address, require_synthetic_content_iff}
use testing_hq.Core.Targets.{Target, resolved, resolve_target}
use testing_hq.Core.Targets.Admission.{Admitted, resolution, resolve_target_iff}

-- Texts without surrounding space, and no address literals; a header value is one address.
abbrev plain_net : Net
plain_net = record {
  strip = λ t. t;
  lower = λ t. t;
  strip_dots = λ t. t;
  strip_brackets = λ t. t;
  ip_address = λ t. none;
  url_host = λ t. some (codes "intake.acme.io");
  resolver = λ t. [];
  get_addresses = λ ts. ts;
}

abbrev intake : Target
intake = record {
  url = codes "https://intake.acme.io/in";
  wire_format = codes "json";
  public = true;
}

abbrev targets : Dict Text Target
targets = (codes "prod", intake) ∷ []

resolve_target_iff_example :
    (resolve_target plain_net (some (codes "prod")) targets true (codes "barrage")
      ≡ resolved (resolution (codes "prod") intake true))
    ↔ Admitted plain_net
        (codes "prod")
        targets
        true
        (codes "barrage")
        (resolution (codes "prod") intake true)
resolve_target_iff_example =
    resolve_target_iff plain_net (codes "prod") targets true (codes "barrage")
      (resolution (codes "prod") intake true)

abbrev addresses : List Text
addresses = codes "a@mail.example.com" ∷ [] ∷ codes "b@acme.test" ∷ []

require_synthetic_content_iff_example :
    (require_synthetic_content plain_net addresses ≡ synthetic) ↔ (
      (is_empty (plain_net.get_addresses (keep_if (holds_text plain_net) addresses)) ≡ false)
      × (all
            (good_address plain_net)
            (plain_net.get_addresses (keep_if (holds_text plain_net) addresses))
          ≡ true))
require_synthetic_content_iff_example = require_synthetic_content_iff plain_net addresses
