-- ===== src/Core/Traits.antt =====
-- The traits of crates/cherenkov-core/src (channel.rs, broker.rs, schema.rs, auth.rs, acl.rs) as
-- interfaces. An object behind an `Arc<dyn …>` that has state is a handle into a state; the calls
-- of an interface take and return that state. `name`, a label for logs, is left out.
use cherenkov.Prelude.{
  ℕ, String, ◌≡◌, Bool, true, List, ◌++◌, [], ◌∷◌, Option, some, Result, ok, Exec,
}
use cherenkov.Protocol.{Bytes, Publication, ServerFrame}
use cherenkov.Core.Types.{
  ChannelError, ChannelCursor, BrokerError, SchemaError, AuthError, AclError, SessionClaims,
  anonymous, AclAction, AclDecision, allow,
}

-- All channel kinds of a server: `Handle` is `Arc<dyn ChannelKind>`.
pub record ChannelKind : Type 1 where
  pub Handle : Type 0
  pub State : Type 0
  pub on_subscribe : Handle → String → Exec State ChannelError ChannelCursor
  pub on_unsubscribe : Handle → String → Exec State ChannelError (Unit {0})
  pub on_publish : Handle → String → Bytes → Exec State ChannelError Publication
  pub replay_since : Handle → String → ℕ → Exec State ChannelError (List Publication)

pub record Broker : Type 1 where
  pub Stream : Type 0
  pub State : Type 0
  pub subscribe : String → Exec State BrokerError Stream
  pub publish : String → Publication → Exec State BrokerError (Unit {0})
  -- The `Drop` of a `BrokerStream`.
  pub drop_stream : Stream → State → State

pub record SchemaValidator : Type 0 where
  pub validate : String → Bytes → Result SchemaError (Unit {0})

pub record Authenticator : Type 0 where
  pub allow_anonymous : Bool
  pub authenticate : String → Result AuthError SessionClaims

pub record AclChecker : Type 0 where
  pub check : SessionClaims → AclAction → String → Result AclError AclDecision

abbrev pub allow_all_validator : SchemaValidator
allow_all_validator = record { validate = λ _ _. ok tt }

abbrev pub allow_all_authenticator : Authenticator
allow_all_authenticator = record { allow_anonymous = true; authenticate = λ _. ok anonymous }

abbrev pub allow_all_acl : AclChecker
allow_all_acl = record { check = λ _ _ _. ok allow }

-- `tokio::sync::mpsc`, a parameter: `send` fails exactly when the receiver is gone, and what was
-- sent on all channels so far is a log in the order of sending.
pub record Mpsc : Type 1 where
  pub Sender : Type 0
  pub State : Type 0
  pub send : Sender → ServerFrame → State → Option State
  pub sent : State → List (Sender × ServerFrame)
  pub sent-send :
      (to : Sender) (frame : ServerFrame) (s t : State)
      → send to frame s ≡ some t
      → sent t ≡ sent s ++ (to, frame) ∷ []

-- What the hub runs on.
pub record Platform : Type 1 where
  pub kinds : ChannelKind
  pub broker : Broker
  pub mpsc : Mpsc
