-- ===== src/Core/Targets/Admission.antt =====
-- When `resolve_target` lets a run send.
use testing_hq.Prelude.{
  ◌≡◌, ◌≢◌, ◌↔◌, refl, sym, subst, ◌∙◌, Bool, true, false, not, ◌&&◌, ◌||◌, Option, none, some,
  arith, is_empty, if◌then◌else◌, ◌==◌,
}
use testing_hq.Prelude.Text.{Text, text_eq, codes}
use testing_hq.Prelude.Dict.{Dict, lookup}
use testing_hq.Core.Guardrails.{Net}
use testing_hq.Core.Targets.{
  Target, ResolvedTarget, Resolution, resolved, no_target, unconfigured, host_is_public, admit,
  resolve_target,
}

-- A private host, or a public one with the flag and, for a load test, the target's own consent.
abbrev pub permitted : Bool → Bool → Bool → Bool → Bool
permitted public allowed load_test consent = not public || (allowed && (not load_test || consent))

abbrev pub resolution : Text → Target → Bool → ResolvedTarget
resolution name target public = record {
  name = name;
  url = target.url;
  format_name = target.wire_format;
  public = public;
}

admit_iff :
    (name : Text) (t : Target) (p a b : Bool) (r : ResolvedTarget)
    → (admit name t p a b ≡ resolved r)
      ↔ ((permitted p a b t.public ≡ true) × (r ≡ resolution name t p))
unfolding admit
admit_iff name t p a b r = ground arith

if_named :
    (b : Bool) (x : Resolution) (r : ResolvedTarget)
    → ((if b then no_target else x) ≡ resolved r) ↔ ((b ≡ false) × (x ≡ resolved r))
if_named b x r = ground arith

module _ (net : Net) where
  abbrev pub Admitted : Text → Dict Text Target → Bool → Text → ResolvedTarget → Type 0
  Admitted name targets allowed tool r =
      (is_empty name ≡ false)
      × ((t : Target) × (lookup name targets ≡ some t)
          × (permitted (host_is_public net t.url) allowed (tool == codes "barrage") t.public ≡ true)
          × (r ≡ resolution name t (host_is_public net t.url)))

  from_lookup :
      (name : Text) (targets : Dict Text Target) (allowed : Bool) (tool : Text) (r : ResolvedTarget)
      (o : Option Target)
      → lookup name targets ≡ o
      → is_empty name ≡ false
      → (elim o [
        | none ↦ unconfigured
        | some t ↦ admit name t (host_is_public net t.url) allowed (tool == codes "barrage")
      ]
          ≡ resolved r)
        ↔ Admitted name targets allowed tool r
  from_lookup name targets allowed tool r none e g =
      ((λ h. cc), (λ h. let (g', (t, found, p, q)) = h in absurd (not_found t (sym e ∙ found))))
    where
      not_found : (t : Target) → ◌≢◌ {A = Option Target} none (some t)
      not_found t f = cc
  from_lookup name targets allowed tool r (some t) e g = (
    (λ h.
        let (p, q) =
          (admit_iff name t (host_is_public net t.url) allowed (tool == codes "barrage") r).0 h in
        (g, (t, e, p, q))),
    (λ h. let (g', (u, found, p, q)) = h in back u (sym e ∙ found) p q),
  )
    where
      Fits : Target → Type 0
      Fits u =
          (permitted (host_is_public net u.url) allowed (tool == codes "barrage") u.public ≡ true)
          × (r ≡ resolution name u (host_is_public net u.url))

      same : (u : Target) → some t ≡ some u → u ≡ t
      same u f = cc

      back :
          (u : Target)
          → some t ≡ some u
          → (permitted (host_is_public net u.url) allowed (tool == codes "barrage") u.public ≡ true)
          → (r ≡ resolution name u (host_is_public net u.url))
          → admit name t (host_is_public net t.url) allowed (tool == codes "barrage") ≡ resolved r
      back u f p q =
          (admit_iff name t (host_is_public net t.url) allowed (tool == codes "barrage") r).1
            (subst Fits (same u f) (p, q))

  -- A named target resolves to `r` if and only if the name is given and configured, `r` is what the
  -- configuration says of it, and its host is private, or the flag allows public hosts and, where
  -- the tool is barrage, the target is declared public.
  pub resolve_target_iff :
      (name : Text) (targets : Dict Text Target) (allowed : Bool) (tool : Text) (r : ResolvedTarget)
      → (resolve_target net (some name) targets allowed tool ≡ resolved r)
        ↔ Admitted name targets allowed tool r
  unfolding resolve_target
  resolve_target_iff name targets allowed tool r =
      let found : Resolution = elim (lookup name targets) [
        | none ↦ unconfigured
        | some t ↦ admit name t (host_is_public net t.url) allowed (tool == codes "barrage")
      ] in
      let named = if_named (is_empty name) found r in
      let looked = from_lookup name targets allowed tool r (lookup name targets) refl in
      ((λ h. (looked (named.0 h).0).0 (named.0 h).1), (λ h. named.1 (h.0, (looked h.0).1 h)))
