-- ===== src/Core/Hub/Building.antt =====
-- The builder of crates/cherenkov-core/src/hub.rs: when it builds, and how channels find their kind.
use cherenkov.Prelude.{
  String, ◌≡◌, Bool, true, false, refl, ap, ◌∙◌, sym, Option, some, ok, arith, inl, inr,
  Option-cases, ok_inj, ◌==◌, string_eq, if◌then◌else◌,
}
use cherenkov.Prelude.Dict
use cherenkov.Prelude.Dict.{get-put}
use cherenkov.Core.Namespace.{namespace_of}
use cherenkov.Core.Traits.{Platform}
use cherenkov.Core.Hub.{
  HubBuilder, HubBuilt, assemble, build, with_channel_kind_for, kind_for, unwrap_or,
}

some_inj : {A : Type 0} (a b : A) → some a ≡ some b → a ≡ b
some_inj a b e = ground (arith, e)

chosen :
    {A : Type 0} (c : Bool) (a : A) (o : Option A) (d : A)
    → unwrap_or (if c then some a else o) d ≡ (if c then a else unwrap_or o d)
chosen true a o d = refl
chosen false a o d = refl

module _ {P : Platform} {B T : Type 0} where
  -- The builder has what it needs, and `built` is what it makes of that.
  pub record Builds (b : HubBuilder P B T) (built : HubBuilt P B T) : Type 0 where
    pub kind : b.kind ≡ some built.hub.kind
    pub broker : b.broker ≡ some built.broker
    pub namespaces : built.hub.namespace_kinds ≡ b.namespace_kinds
    pub transports : built.transports ≡ b.transports

  build-Builds :
      (b : HubBuilder P B T) (built : HubBuilt P B T) → build b ≡ ok built → Builds b built
  unfolding build assemble
  build-Builds b built h = elim (Option-cases b.kind) [
    | inl e ↦ absurd (ground (arith, e, h))
    | inr (kind, e) ↦ elim (Option-cases b.broker) [
      | inl f ↦ absurd (ground (arith, e, f, h))
      | inr (broker, f) ↦
          let same = ok_inj (assemble b kind broker) built (sym (assembled kind broker e f) ∙ h) in
          record {
            kind = e ∙ ap (λ x. some x.hub.kind) same;
            broker = f ∙ ap (λ x. some x.broker) same;
            namespaces = ap (λ x. x.hub.namespace_kinds) (sym same);
            transports = ap (λ x. x.transports) (sym same);
          }
    ]
  ]
    where
      assembled :
          (kind : P.kinds.Handle) (broker : B)
          → b.kind ≡ some kind
          → b.broker ≡ some broker
          → build b ≡ ok (assemble b kind broker)
      assembled kind broker e f = rw (e, build) (rw f refl)

  -- A kind that is registered for a namespace serves exactly the channels of that namespace; every
  -- other channel is served by the kind that served it without the registration.
  pub kind_for-with_channel_kind_for :
      (namespace : String) (kind : P.kinds.Handle) (b : HubBuilder P B T)
      (before after : HubBuilt P B T)
      → build b ≡ ok before
      → build (with_channel_kind_for namespace kind b) ≡ ok after
      → (channel : String)
      → kind_for after.hub channel
        ≡ (if namespace == namespace_of channel then kind else kind_for before.hub channel)
  unfolding kind_for with_channel_kind_for
  kind_for-with_channel_kind_for namespace kind b before after h k channel =
      ap (λ d. unwrap_or (Dict.get d (namespace_of channel)) after.hub.kind) now.namespaces
      ∙ ap (λ o. unwrap_or o after.hub.kind)
          (get-put b.namespace_kinds namespace (namespace_of channel) kind)
      ∙ chosen (namespace == namespace_of channel) kind _ after.hub.kind
      ∙ ap (λ x. if namespace == namespace_of channel then kind else x)
          (ap (unwrap_or (Dict.get b.namespace_kinds (namespace_of channel))) same_kind
            ∙ ap (λ d. unwrap_or (Dict.get d (namespace_of channel)) before.hub.kind)
                (sym was.namespaces))
    where
      was : Builds b before
      was = build-Builds b before h

      now : Builds (with_channel_kind_for namespace kind b) after
      now = build-Builds (with_channel_kind_for namespace kind b) after k

      same_kind : after.hub.kind ≡ before.hub.kind
      same_kind = some_inj after.hub.kind before.hub.kind (sym now.kind ∙ was.kind)
