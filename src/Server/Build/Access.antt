-- ===== src/Server/Build/Access.antt =====
-- What the access rules of crates/cherenkov-server/src/config.rs say, and that the checker which
-- app.rs compiles from them decides accordingly.
use cherenkov.Prelude.{
  String, ◌≡◌, refl, ap, sym, ◌∙◌, Bool, true, false, ◌&&◌, Option, none, some, ok, err,
  and_then_ok-eq_ok, map_err-eq_ok, ok_inj, List, [], ◌∷◌, ◌++◌, if◌then◌else◌, arith, Result-cases,
  inl, inr, subst,
}
use mathlib.Core.List.{append_assoc, append-nil}
use cherenkov.Core.Types.{SessionClaims, AclAction, AclDecision}
use cherenkov.Core.Traits.{AclChecker, allow_all_acl}
use cherenkov.Acl
use cherenkov.Acl.{
  AclRule, AclMatch, NamespaceAclBuilder, covers, rule_matches, subject_matches, decision_of,
  decide, namespace_checker, new_rule, try_allow, try_deny,
}
use cherenkov.Server.Config.{AclActionConfig, AclEffectConfig, AclRuleConfig, AclConfig}
use cherenkov.Server.Parts.{
  Outside, match_of, try_effect, with_subject_of, compile_rule, add_rules, build_acl,
}

abbrev pub concerns : AclActionConfig → AclAction → Bool
concerns AclActionConfig.any action = true
concerns AclActionConfig.subscribe AclAction.subscribe = true
concerns AclActionConfig.subscribe AclAction.publish = false
concerns AclActionConfig.publish AclAction.subscribe = false
concerns AclActionConfig.publish AclAction.publish = true

abbrev pub said : AclEffectConfig → AclDecision
said AclEffectConfig.allow = AclDecision.allow
said AclEffectConfig.deny = AclDecision.deny

module _ (O : Outside) where
  -- The text matches the glob pattern.
  abbrev pub fits : String → String → Bool
  fits pattern text = elim (O.globset.compile pattern) [
    | ok glob ↦ O.globset.is_match glob text
    | err e ↦ false
  ]

  abbrev pub fits_subject : Option String → String → Bool
  fits_subject none subject = true
  fits_subject (some pattern) subject = fits pattern subject

  abbrev pub applies : AclRuleConfig → String → AclAction → String → Bool
  applies rule subject action channel =
      concerns rule.action action
      && (fits_subject rule.subject subject && fits rule.channel channel)

  -- The first rule that applies decides, and else the default.
  abbrev pub ruled : List AclRuleConfig → Bool → String → AclAction → String → AclDecision
  ruled [] by_default subject action channel =
      if by_default then AclDecision.allow else AclDecision.deny
  ruled (rule ∷ rules) by_default subject action channel =
      let rest = ruled rules by_default subject action channel in
      if applies rule subject action channel then said rule.effect else rest

  -- Without an `acl` section everything is allowed.
  abbrev pub access : Option AclConfig → String → AclAction → String → AclDecision
  access none subject action channel = AclDecision.allow
  access (some c) subject action channel = ruled c.rules c.default_allow subject action channel

  abbrev SameSubject : Option String → Option O.globset.GlobMatcher → Type 0
  SameSubject none none = Unit
  SameSubject none (some glob) = ⊥
  SameSubject (some pattern) none = ⊥
  SameSubject (some pattern) (some glob) = O.globset.compile pattern ≡ ok glob

  record Compiled (rule : AclRuleConfig) (subject : Option String) (c : AclRule O.globset)
      : Type 0 where
    channel : O.globset.compile rule.channel ≡ ok c.channel
    same_subject : SameSubject subject c.subject
    action : c.action ≡ match_of O rule.action
    effect : decision_of c.effect ≡ said rule.effect

  new_rule-Compiled :
      (rule : AclRuleConfig) (effect : Acl.Effect) (c : AclRule O.globset)
      → decision_of effect ≡ said rule.effect
      → new_rule effect rule.channel (match_of O rule.action) ≡ ok c
      → Compiled rule none c
  unfolding new_rule
  new_rule-Compiled rule effect c e h = elim (Result-cases (O.globset.compile rule.channel)) [
    | inr (x, k) ↦ absurd (ground (arith, h, k))
    | inl (glob, k) ↦
        subst (Compiled rule none) (ok_inj (made glob) c (rw (k, new_rule) at h))
          (record { channel = k; same_subject = tt; action = refl; effect = e })
  ]
    where
      made : O.globset.GlobMatcher → AclRule O.globset
      made glob = record {
        effect = effect;
        channel = glob;
        subject = none;
        action = match_of O rule.action;
      }

  with_subject-Compiled :
      (rule : AclRuleConfig) (pattern : String) (b c : AclRule O.globset)
      → Compiled rule none b
      → Acl.with_subject pattern b ≡ ok c
      → Compiled rule (some pattern) c
  unfolding Acl.with_subject
  with_subject-Compiled rule pattern b c g h = elim (Result-cases (O.globset.compile pattern)) [
    | inr (x, k) ↦ absurd (ground (arith, h, k))
    | inl (glob, k) ↦
        subst (Compiled rule (some pattern))
          (ok_inj (record b { subject = some glob }) c (rw (k, Acl.with_subject) at h))
          (record { channel = g.channel; same_subject = k; action = g.action; effect = g.effect })
  ]

  covers-concerns :
      (a : AclActionConfig) (action : AclAction) → covers (match_of O a) action ≡ concerns a action
  unfolding covers
  covers-concerns AclActionConfig.any action = refl
  covers-concerns AclActionConfig.subscribe AclAction.subscribe = refl
  covers-concerns AclActionConfig.subscribe AclAction.publish = refl
  covers-concerns AclActionConfig.publish AclAction.subscribe = refl
  covers-concerns AclActionConfig.publish AclAction.publish = refl

  fits-channel :
      (pattern : String) (glob : O.globset.GlobMatcher) (channel : String)
      → O.globset.compile pattern ≡ ok glob
      → O.globset.is_match glob channel ≡ fits pattern channel
  fits-channel pattern glob channel h = rw (h, fits) refl

  subject_matches-fits :
      (pattern : Option String) (glob : Option O.globset.GlobMatcher) (subject : String)
      → SameSubject pattern glob
      → subject_matches O.globset glob subject ≡ fits_subject pattern subject
  subject_matches-fits none none subject h = refl
  subject_matches-fits none (some glob) subject h = absurd h
  subject_matches-fits (some pattern) none subject h = absurd h
  subject_matches-fits (some pattern) (some glob) subject h = fits-channel pattern glob subject h

  rule_matches-applies :
      (rule : AclRuleConfig) (c : AclRule O.globset) (claims : SessionClaims) (action : AclAction)
      (channel : String)
      → Compiled rule rule.subject c
      → rule_matches c claims action channel ≡ applies rule claims.subject action channel
  unfolding rule_matches
  rule_matches-applies rule c claims action channel h = ground (
    arith,
    ap (λ a. covers a action) h.action,
    covers-concerns rule.action action,
    subject_matches-fits rule.subject c.subject claims.subject h.same_subject,
    fits-channel rule.channel c.channel channel h.channel,
  )

  try_effect-Compiled :
      (rule : AclRuleConfig) (effect : AclEffectConfig) (c : AclRule O.globset)
      → rule.effect ≡ effect
      → try_effect O effect rule.channel (match_of O rule.action) ≡ ok c
      → Compiled rule none c
  unfolding try_allow try_deny
  try_effect-Compiled rule AclEffectConfig.allow c e h =
      new_rule-Compiled rule Acl.Effect.allow c (sym (ap said e)) h
  try_effect-Compiled rule AclEffectConfig.deny c e h =
      new_rule-Compiled rule Acl.Effect.deny c (sym (ap said e)) h

  with_subject_of-Compiled :
      (rule : AclRuleConfig) (subject : Option String) (b c : AclRule O.globset)
      → Compiled rule none b
      → with_subject_of O subject b ≡ ok c
      → Compiled rule subject c
  with_subject_of-Compiled rule none b c g h = subst (Compiled rule none) (ok_inj b c h) g
  with_subject_of-Compiled rule (some pattern) b c g h =
      with_subject-Compiled rule pattern b c g (map_err-eq_ok _ (Acl.with_subject pattern b) c h)

  compile_rule-Compiled :
      (rule : AclRuleConfig) (c : AclRule O.globset)
      → compile_rule O rule ≡ ok c
      → Compiled rule rule.subject c
  unfolding compile_rule
  compile_rule-Compiled rule c h =
      let (b, made, rest) = and_then_ok-eq_ok _ (with_subject_of O rule.subject) c h in
      with_subject_of-Compiled rule rule.subject b c
        (try_effect-Compiled rule rule.effect b refl
          (map_err-eq_ok _ (try_effect O rule.effect rule.channel (match_of O rule.action)) b made))
        rest

  abbrev AllCompiled : List AclRuleConfig → List (AclRule O.globset) → Type 0
  AllCompiled [] [] = Unit
  AllCompiled [] (c ∷ cs) = ⊥
  AllCompiled (rule ∷ rules) [] = ⊥
  AllCompiled (rule ∷ rules) (c ∷ cs) = Compiled rule rule.subject c × AllCompiled rules cs

  decide-ruled :
      (rules : List AclRuleConfig) (cs : List (AclRule O.globset)) (by_default : Bool)
      (claims : SessionClaims) (action : AclAction) (channel : String)
      → AllCompiled rules cs
      → decide cs by_default claims action channel
        ≡ ruled rules by_default claims.subject action channel
  unfolding decide
  decide-ruled [] [] by_default claims action channel h = refl
  decide-ruled [] (c ∷ cs) by_default claims action channel h = absurd h
  decide-ruled (rule ∷ rules) [] by_default claims action channel h = absurd h
  decide-ruled (rule ∷ rules) (c ∷ cs) by_default claims action channel h = ground (
    arith,
    rule_matches-applies rule c claims action channel h.0,
    h.0.effect,
    decide-ruled rules cs by_default claims action channel h.1,
  )

  record Added (rules : List AclRuleConfig) (b v : NamespaceAclBuilder O.globset) : Type 0 where
    compiled : List (AclRule O.globset)
    appended : v.rules ≡ b.rules ++ compiled
    same : v.default_allow ≡ b.default_allow
    all : AllCompiled rules compiled

  add_rules-Added :
      (rules : List AclRuleConfig) (b v : NamespaceAclBuilder O.globset)
      → add_rules O rules b ≡ ok v
      → Added rules b v
  unfolding add_rules Acl.with_rule
  add_rules-Added [] b v h = record {
    compiled = [];
    appended = ap (λ x. x.rules) (sym (ok_inj b v h)) ∙ sym (append-nil b.rules);
    same = ap (λ x. x.default_allow) (sym (ok_inj b v h));
    all = tt;
  }
  add_rules-Added (rule ∷ rules) b v h =
      let (c, made, rest) = and_then_ok-eq_ok (compile_rule O rule) _ v h in
      let added = add_rules-Added rules (Acl.with_rule c b) v rest in
      record {
        compiled = c ∷ added.compiled;
        appended = added.appended ∙ append_assoc b.rules (c ∷ []) added.compiled;
        same = added.same;
        all = (compile_rule-Compiled rule c made, added.all);
      }

  pub build_acl-access :
      (acl : Option AclConfig) (checker : AclChecker)
      → build_acl O acl ≡ ok checker
      → (claims : SessionClaims) (action : AclAction) (channel : String)
      → checker.check claims action channel ≡ ok (access acl claims.subject action channel)
  unfolding build_acl Acl.build Acl.default_allow
  build_acl-access none checker h claims action channel =
      ap (λ k. k.check claims action channel) (sym (ok_inj allow_all_acl checker h))
  build_acl-access (some c) checker h claims action channel =
      let b = Acl.default_allow c.default_allow Acl.new_builder in
      let (v, made, rest) = and_then_ok-eq_ok (add_rules O c.rules b) _ checker h in
      let added = add_rules-Added c.rules b v made in
      ap (λ k. k.check claims action channel)
        (sym (ok_inj (namespace_checker (Acl.build v)) checker rest))
      ∙ ap (λ rules. ok (decide rules v.default_allow claims action channel)) added.appended
      ∙ ap (λ d. ok (decide added.compiled d claims action channel)) added.same
      ∙ ap ok (decide-ruled c.rules added.compiled c.default_allow claims action channel added.all)
