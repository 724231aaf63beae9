-- ===== src/Core/Guardrails.antt =====
-- testinghq/core/guardrails.py: which hosts are private, which addresses are synthetic, and what is
-- refused. A GuardrailError is a result that says which one.
pub mod Synthetic
use testing_hq.Prelude.{
  ℕ, Bool, true, false, not, ◌&&◌, ◌||◌, Option, none, some, List, [], ◌∷◌, ◌++◌, any, all, keep_if,
  is_empty, is_some, nat_beq, if◌then◌else◌,
}
use testing_hq.Prelude.Text.{Text, text_eq, text_beq, codes, has_infix}
use testing_hq.Prelude.Distinct.{mem}

-- What `ipaddress` says of an address.
pub record IpFlags : Type 0 where
  pub is_private : Bool
  pub is_loopback : Bool
  pub is_link_local : Bool
  pub is_reserved : Bool
  pub is_unspecified : Bool

-- An address; `mapped` is the IPv4 address that an IPv6 address carries.
pub record IpAddress : Type 0 where
  pub flags : IpFlags
  pub mapped : Option IpFlags

-- What the guardrails use of the standard library. `ip_address` is None on a ValueError, and
-- `get_addresses` gives the addresses of header values.
pub record Net : Type 0 where
  pub strip : Text → Text
  pub lower : Text → Text
  pub strip_dots : Text → Text
  pub strip_brackets : Text → Text
  pub ip_address : Text → Option IpAddress
  pub url_host : Text → Option Text
  pub resolver : Text → List Text
  pub get_addresses : List Text → List Text

abbrev pub reserved_domains : List Text
reserved_domains =
    codes "example.com" ∷ codes "example.net" ∷ codes "example.org" ∷ codes "example.edu" ∷ []

abbrev pub reserved_tlds : List Text
reserved_tlds = codes "test" ∷ codes "invalid" ∷ codes "example" ∷ codes "localhost" ∷ []

-- s.endswith(suffix)
unfoldable pub ends_with : Text → Text → Bool
ends_with suffix [] = text_beq suffix []
ends_with suffix (c ∷ t) = text_beq suffix (c ∷ t) || ends_with suffix t

-- The text before the last `c`, and the text behind it.
unfoldable pub rpartition : ℕ → Text → Option (Text × Text)
rpartition c [] = none
rpartition c (d ∷ t) =
    let rest = rpartition c t in
    elim rest [ some q ↦ some (d ∷ q.0, q.1) | none ↦ if nat_beq c d then some ([], t) else none ]

-- t.rsplit(".", 1)[-1]
unfoldable pub last_label : Text → Text
unfolding rpartition
last_label t = elim (rpartition 46 t) [ none ↦ t | some q ↦ q.1 ]

-- address.split("%", 1)[0]
unfoldable pub before_percent : Text → Text
before_percent [] = []
before_percent (c ∷ t) = let rest = before_percent t in if nat_beq c 37 then [] else c ∷ rest

-- A reserved domain, a name below one, or a name under a reserved TLD.
unfoldable pub reserved_name : Text → Bool
unfolding ends_with last_label
reserved_name domain =
    mem domain reserved_domains
    || (any (λ d. ends_with (codes "." ++ d) domain) reserved_domains
        || mem (last_label domain) reserved_tlds)

-- The address that is judged: the IPv4 address that an IPv6 address carries, or itself.
abbrev pub judged : IpAddress → IpFlags
judged ip = elim ip.mapped [ none ↦ ip.flags | some v4 ↦ v4 ]

abbrev pub reserved_ip : IpFlags → Bool
reserved_ip f =
    f.is_private || (f.is_loopback || (f.is_link_local || (f.is_reserved || f.is_unspecified)))

abbrev pub private_ip : IpFlags → Bool
private_ip f = f.is_private || (f.is_loopback || f.is_link_local)

abbrev pub or_empty : Option Text → Text
or_empty none = []
or_empty (some t) = t

-- What `require_synthetic_content` finds.
pub data ContentCheck : Type 0 where
  synthetic : ContentCheck
  no_addresses : ContentCheck
  empty_address : ContentCheck
  not_synthetic : Text → ContentCheck

module _ (net : Net) where
  open net use {
    strip, lower, strip_dots, strip_brackets, ip_address, url_host, resolver, get_addresses,
  }

  unfoldable pub extract_host : Text → Text
  extract_host target =
      let candidate = (if has_infix (codes "//") target then target else codes "//" ++ target) in
      let host = or_empty (url_host candidate) in
      if is_empty target then [] else if is_empty host then lower (strip target) else lower host

  -- The address in a host, if it is one.
  abbrev pub ip_of : Text → Option IpAddress
  ip_of host = ip_address (before_percent (strip_brackets host))

  unfoldable pub is_reserved_or_private_host : Text → Bool
  unfolding reserved_name
  is_reserved_or_private_host given_host =
      let host = strip_dots given_host in
      if is_empty given_host then false else elim (ip_of host) [
        | some ip ↦ reserved_ip (judged ip)
        | none ↦
            text_beq host (codes "localhost") || (not (any (nat_beq 46) host) || reserved_name host)
      ]

  unfoldable pub address_is_private : Text → Bool
  unfolding before_percent
  address_is_private address = elim (ip_address (before_percent address)) [
    | none ↦ false
    | some ip ↦ private_ip (judged ip)
  ]

  unfoldable pub is_private_host : Text → Bool
  unfolding is_reserved_or_private_host address_is_private
  is_private_host given_host =
      let host = strip_dots (lower (strip given_host)) in
      let addresses = resolver host in
      if is_empty host
      then false
      else if is_reserved_or_private_host host
      then true
      else if is_some (ip_of host)
      then false
      else not (is_empty addresses) && all address_is_private addresses

  unfoldable pub is_synthetic_address : Text → Bool
  unfolding rpartition reserved_name
  is_synthetic_address address = elim (rpartition 64 address) [
    | none ↦ false
    | some q ↦
        let domain = strip_dots (lower (strip q.1)) in
        not (is_empty q.0)
        && (not (is_empty q.1) && (not (is_empty domain) && reserved_name domain))
  ]

  unfoldable pub check_addresses : List Text → ContentCheck
  unfolding is_synthetic_address
  check_addresses [] = synthetic
  check_addresses (a ∷ rest) =
      let later = check_addresses rest in
      if is_empty a
      then empty_address
      else if is_synthetic_address a
      then later
      else not_synthetic a

  -- A field that holds text; the code refuses any other value, which has no address.
  abbrev pub holds_text : Text → Bool
  holds_text value = not (is_empty (strip value))

  unfoldable pub require_synthetic_content : List Text → ContentCheck
  unfolding check_addresses
  require_synthetic_content emails =
      let addresses = get_addresses (keep_if holds_text emails) in
      if is_empty addresses then no_addresses else check_addresses addresses

-- The result of `evaluate_send`; its two reasons are not spelled.
pub record FireDecision : Type 0 where
  pub will_send : Bool

abbrev pub evaluate_send : Bool → FireDecision
evaluate_send send_flag = record { will_send = send_flag }

-- What `require_configured_target` finds.
pub data TargetCheck : Type 0 where
  target_fine : Text → TargetCheck
  target_unknown : TargetCheck
  target_public : Text → TargetCheck

-- The string check of a target, without DNS.
unfoldable pub require_configured_target : Net → Text → List Text → Bool → TargetCheck
unfolding extract_host is_reserved_or_private_host
require_configured_target net target allowed_targets allow_public_hosts =
    let host = extract_host net target in
    if not (mem target allowed_targets)
    then target_unknown
    else if not allow_public_hosts && not (is_reserved_or_private_host net host)
    then target_public host
    else target_fine target
