-- ===== src/Acl.antt =====
-- crates/cherenkov-auth/src/namespace_acl.rs: access rules with globs. `globset` is a parameter.
pub mod Decision
use cherenkov.Prelude.{
  String, Bool, true, false, not, ◌&&◌, Option, none, some, Result, ok, err, List, [], ◌∷◌, ◌++◌,
  if◌then◌else◌,
}
use cherenkov.Core.Types.{SessionClaims, AclAction, AclDecision}
use cherenkov.Core.Traits.{AclChecker}

-- `compile` is `Glob::new(pattern)?.compile_matcher()`.
pub record Globset : Type 1 where
  pub GlobMatcher : Type 0
  pub Error : Type 0
  pub compile : String → Result Error GlobMatcher
  pub is_match : GlobMatcher → String → Bool

pub data AclMatch : Type 0 where
  subscribe publish any : AclMatch

unfoldable pub covers : AclMatch → AclAction → Bool
covers AclMatch.any action = true
covers AclMatch.subscribe AclAction.subscribe = true
covers AclMatch.publish AclAction.publish = true
covers AclMatch.subscribe AclAction.publish = false
covers AclMatch.publish AclAction.subscribe = false

pub data Effect : Type 0 where
  allow deny : Effect

pub record AclRule (G : Globset) : Type 0 where
  pub effect : Effect
  pub channel : G.GlobMatcher
  pub subject : Option G.GlobMatcher
  pub action : AclMatch

pub record NamespaceAcl (G : Globset) : Type 0 where
  pub rules : List (AclRule G)
  pub default_allow : Bool

pub record NamespaceAclBuilder (G : Globset) : Type 0 where
  pub rules : List (AclRule G)
  pub default_allow : Bool

abbrev pub decision_of : Effect → AclDecision
decision_of Effect.allow = AclDecision.allow
decision_of Effect.deny = AclDecision.deny

-- A rule without a subject pattern applies to every subject.
abbrev pub subject_matches : (G : Globset) → Option G.GlobMatcher → String → Bool
subject_matches G none subject = true
subject_matches G (some glob) subject = G.is_match glob subject

module _ {G : Globset} where
  unfoldable pub new_rule : Effect → String → AclMatch → Result G.Error (AclRule G)
  new_rule effect channel_pattern action = elim (G.compile channel_pattern) [
    | ok channel ↦
        ok (record { effect = effect; channel = channel; subject = none; action = action })
    | err e ↦ err e
  ]

  unfoldable pub try_allow : String → AclMatch → Result G.Error (AclRule G)
  unfolding new_rule
  try_allow channel_pattern action = new_rule Effect.allow channel_pattern action

  unfoldable pub try_deny : String → AclMatch → Result G.Error (AclRule G)
  unfolding new_rule
  try_deny channel_pattern action = new_rule Effect.deny channel_pattern action

  unfoldable pub with_subject : String → AclRule G → Result G.Error (AclRule G)
  with_subject subject_pattern rule = elim (G.compile subject_pattern) [
    | ok subject ↦ ok (record rule { subject = some subject })
    | err e ↦ err e
  ]

  -- `AclRule::matches`, with its early returns
  unfoldable pub rule_matches : AclRule G → SessionClaims → AclAction → String → Bool
  unfolding covers
  rule_matches rule claims action channel =
      if not (covers rule.action action)
      then false
      else (if not (subject_matches G rule.subject claims.subject)
          then false
          else G.is_match rule.channel channel)

  abbrev pub new_builder : NamespaceAclBuilder G
  new_builder = record { rules = []; default_allow = false }

  unfoldable pub with_rule : AclRule G → NamespaceAclBuilder G → NamespaceAclBuilder G
  with_rule rule b = record b { rules = b.rules ++ rule ∷ [] }

  unfoldable pub default_allow : Bool → NamespaceAclBuilder G → NamespaceAclBuilder G
  default_allow allowed b = record b { default_allow = allowed }

  unfoldable pub build : NamespaceAclBuilder G → NamespaceAcl G
  build b = record { rules = b.rules; default_allow = b.default_allow }

  -- The loop of `check` over the rules, and the default after it
  unfoldable pub decide : List (AclRule G) → Bool → SessionClaims → AclAction → String → AclDecision
  unfolding rule_matches
  decide [] by_default claims action channel =
      if by_default then AclDecision.allow else AclDecision.deny
  decide (rule ∷ rules) by_default claims action channel =
      let rest = decide rules by_default claims action channel in
      if rule_matches rule claims action channel then decision_of rule.effect else rest

  -- `impl AclChecker for NamespaceAcl`; no error is ever returned.
  abbrev pub namespace_checker : NamespaceAcl G → AclChecker
  namespace_checker acl = record {
    check = λ claims action channel. ok (decide acl.rules acl.default_allow claims action channel);
  }
