-- ===== src/Examples/Rules.antt =====
-- Two access rules, and an instance of the theorem on decisions.
use cherenkov.Prelude.{String, ◌≡◌, refl, ◌↔◌, none, ok, ◌==◌, string_eq, ◌||◌}
use cherenkov.Core.Types.{AclAction, AclDecision, anonymous}
use cherenkov.Acl
use cherenkov.Acl.{
  Globset, AclMatch, Effect, AclRule, NamespaceAcl, new_builder, with_rule, build,
  namespace_checker,
}
use cherenkov.Acl.Decision.{DecidedBy, check-eq-ok}

-- A glob is `*` or a literal text.
abbrev pub globs : Globset
globs = record {
  GlobMatcher = String;
  Error = Unit {0};
  compile = ok;
  is_match = λ glob text. (glob == "*") || (glob == text);
}

abbrev rule : Effect → String → AclRule globs
rule effect channel = record {
  effect = effect;
  channel = channel;
  subject = none;
  action = AclMatch.any;
}

abbrev acl : NamespaceAcl globs
acl = build (with_rule (rule Effect.allow "*") (with_rule (rule Effect.deny "admin") new_builder))

check-eq-ok_example :
    ((namespace_checker acl).check anonymous AclAction.publish "admin" ≡ ok AclDecision.deny)
    ↔ DecidedBy anonymous AclAction.publish "admin" acl.default_allow AclDecision.deny acl.rules
check-eq-ok_example = check-eq-ok anonymous AclAction.publish "admin" acl AclDecision.deny

run_test :
    ((namespace_checker acl).check anonymous AclAction.publish "admin" ≡ ok AclDecision.deny)
    × ((namespace_checker acl).check anonymous AclAction.publish "rooms" ≡ ok AclDecision.allow)
unfolding Acl.decide Acl.rule_matches Acl.covers Acl.build Acl.with_rule
run_test = (refl, refl)
