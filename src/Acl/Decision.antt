-- ===== src/Acl/Decision.antt =====
-- What `check` of crates/cherenkov-auth/src/namespace_acl.rs decides, rule by rule.
use cherenkov.Prelude.{
  String, Bool, true, false, ◌≡◌, refl, ◌↔◌, Bool-cases, ap, sym, subst, ◌∙◌, inl, inr, List, [],
  ◌∷◌, ◌++◌, ok, arith, if◌then◌else◌,
}
use mathlib.Core.List.{append-nil}
use cherenkov.Prelude.Suffix.{All}
use cherenkov.Core.Types.{SessionClaims, AclAction, AclDecision}
use cherenkov.Acl.{
  Globset, AclRule, NamespaceAcl, rule_matches, decision_of, decide, namespace_checker,
}

module _ {G : Globset} (claims : SessionClaims) (action : AclAction) (channel : String) where
  abbrev pub Matches : AclRule G → Type 0
  Matches rule = rule_matches rule claims action channel ≡ true

  abbrev pub Misses : AclRule G → Type 0
  Misses rule = rule_matches rule claims action channel ≡ false

  -- How a decision comes about: by the first rule that matches, or by the default where none does.
  pub data DecidedBy (by_default : Bool) (d : AclDecision) (rules : List (AclRule G)) : Type 0 where
    first :
        (before : List (AclRule G)) (rule : AclRule G) (after : List (AclRule G))
        → rules ≡ before ++ rule ∷ after
        → All Misses before
        → Matches rule
        → decision_of rule.effect ≡ d
        → DecidedBy by_default d rules
    unmatched :
        All Misses rules
        → (if by_default then AclDecision.allow else AclDecision.deny) ≡ d
        → DecidedBy by_default d rules

  DecidedBy-cons :
      (by_default : Bool) (d : AclDecision) (rule : AclRule G) (rules : List (AclRule G))
      → Misses rule
      → DecidedBy by_default d rules
      → DecidedBy by_default d (rule ∷ rules)
  DecidedBy-cons by_default d rule rules miss (first before r after e misses hit same) =
      first (rule ∷ before) r after (ap (◌∷◌ rule) e) (miss, misses) hit same
  DecidedBy-cons by_default d rule rules miss (unmatched misses same) =
      unmatched (miss, misses) same

  decide-DecidedBy :
      (by_default : Bool) (rules : List (AclRule G))
      → DecidedBy by_default (decide rules by_default claims action channel) rules
  unfolding decide
  decide-DecidedBy by_default [] = unmatched tt refl
  decide-DecidedBy by_default (rule ∷ rules) =
      elim (Bool-cases (rule_matches rule claims action channel)) [
        | inl hit ↦ first [] rule rules refl tt hit (rw hit refl)
        | inr miss ↦
            rw miss
              (DecidedBy-cons by_default _ rule rules miss (decide-DecidedBy by_default rules))
      ]

  decide-append :
      (by_default : Bool) (before after : List (AclRule G))
      → All Misses before
      → decide (before ++ after) by_default claims action channel
        ≡ decide after by_default claims action channel
  unfolding decide
  decide-append by_default [] after h = refl
  decide-append by_default (rule ∷ rules) after h =
      rw h.0 (decide-append by_default rules after h.1)

  DecidedBy-decide :
      (by_default : Bool) (d : AclDecision) (rules : List (AclRule G))
      → DecidedBy by_default d rules
      → decide rules by_default claims action channel ≡ d
  unfolding decide
  DecidedBy-decide by_default d rules (first before rule after e misses hit same) =
      ap (λ l. decide l by_default claims action channel) e
      ∙ decide-append by_default before (rule ∷ after) misses
      ∙ rw hit same
  DecidedBy-decide by_default d rules (unmatched misses same) =
      ap (λ l. decide l by_default claims action channel) (sym (append-nil rules))
      ∙ decide-append by_default rules [] misses
      ∙ same

  -- The checker never fails: a denial is an answer of it and no error. It decides `d` exactly when the
  -- first rule that matches the action, the subject and the channel has the effect `d`, or no rule
  -- matches, of none or of some, and `d` is the default that was set, which may be to allow.
  pub check-eq-ok :
      (acl : NamespaceAcl G) (d : AclDecision)
      → ((namespace_checker acl).check claims action channel ≡ ok d)
        ↔ DecidedBy acl.default_allow d acl.rules
  check-eq-ok acl d = (
    λ e.
        subst (λ x. DecidedBy acl.default_allow x acl.rules) (ok_inj e)
          (decide-DecidedBy acl.default_allow acl.rules),
    λ h. ap ok (DecidedBy-decide acl.default_allow d acl.rules h),
  )
    where
      ok_inj :
          (namespace_checker acl).check claims action channel ≡ ok d
          → decide acl.rules acl.default_allow claims action channel ≡ d
      ok_inj e = ground (arith, e)
