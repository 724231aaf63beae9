-- ===== src/Core/Targets.antt =====
-- testinghq/core/targets.py: which configured target a run may send to, and what is refused.
pub mod Admission
mod Examples
use testing_hq.Prelude.{
  Bool, true, false, not, ◌&&◌, Option, none, some, List, [], ◌∷◌, is_empty, if◌then◌else◌, ◌==◌,
}
use testing_hq.Prelude.Text.{Text, text_eq, codes}
use testing_hq.Prelude.Dict.{Dict, lookup}
use testing_hq.Core.Guardrails.{Net, extract_host, is_private_host}

-- What is read of `[targets.<name>]`.
pub record Target : Type 0 where
  pub url : Text
  pub wire_format : Text
  pub public : Bool

pub record ResolvedTarget : Type 0 where
  pub name : Text
  pub url : Text
  pub format_name : Text
  pub public : Bool

-- What barrage at a public host lacks.
pub record Missing : Type 0 where
  pub lacks_flag : Bool
  pub lacks_public : Bool

pub data Resolution : Type 0 where
  resolved : ResolvedTarget → Resolution
  no_target : Resolution
  unconfigured : Resolution
  public_load_test : Missing → Resolution
  public_host : Resolution

-- What follows the lookup of the target, by whether its host is public.
unfoldable pub admit : Text → Target → Bool → Bool → Bool → Resolution
admit name target public allow_public_target is_barrage =
    let fine = resolved (record {
      name = name;
      url = target.url;
      format_name = target.wire_format;
      public = public;
    }) in
    if public && is_barrage
    then (if allow_public_target && target.public
        then fine
        else public_load_test
            (record { lacks_flag = not allow_public_target; lacks_public = not target.public }))
    else if public && not allow_public_target
    then public_host
    else fine

module _ (net : Net) where
  unfoldable pub host_is_public : Text → Bool
  unfolding extract_host is_private_host
  host_is_public url = not (is_private_host net (extract_host net url))

  -- `targets` is what `load_config` read.
  unfoldable pub resolve_target : Option Text → Dict Text Target → Bool → Text → Resolution
  unfolding host_is_public admit
  resolve_target none targets allow_public_target load_tool = no_target
  resolve_target (some name) targets allow_public_target load_tool =
      if is_empty name then no_target else elim (lookup name targets) [
        | none ↦ unconfigured
        | some target ↦
            admit name target (host_is_public target.url) allow_public_target
              (load_tool == codes "barrage")
      ]
