-- ===== src/Core/Types.antt =====
-- crates/cherenkov-core/src: the errors (error.rs, channel.rs, broker.rs, schema.rs, auth.rs,
-- acl.rs), claims, actions, decisions and cursors.
use cherenkov.Prelude.{ℕ, String, List, []}

pub data ChannelError : Type 0 where
  invalid_channel : String → ChannelError
  rejected_publication : String → ChannelError
  other : String → ChannelError

pub data BrokerError : Type 0 where
  publish_rejected : String → String → BrokerError
  unavailable : String → BrokerError
  other : String → BrokerError

pub data SchemaError : Type 0 where
  payload_rejected : String → String → SchemaError
  other : String → SchemaError

pub data AuthError : Type 0 where
  invalid_token : String → AuthError
  other : String → AuthError

-- `denied subject action channel reason`
pub data AclError : Type 0 where
  denied : String → String → String → String → AclError
  other : String → AclError

pub data HubError : Type 0 where
  session_gone : ℕ → HubError
  unknown_channel : String → HubError
  already_subscribed : ℕ → String → HubError
  not_subscribed : ℕ → String → HubError
  channel : ChannelError → HubError
  broker : BrokerError → HubError
  schema : SchemaError → HubError
  auth : AuthError → HubError
  acl : AclError → HubError
  not_connected : ℕ → HubError
  already_connected : ℕ → HubError

pub record ChannelCursor : Type 0 where
  pub epoch : ℕ
  pub offset : ℕ

pub record SessionClaims : Type 0 where
  pub subject : String
  pub permissions : List String
  pub expires_at : ℕ

abbrev pub anonymous : SessionClaims
anonymous = record { subject = "anonymous"; permissions = []; expires_at = 0 }

pub data AclAction : Type 0 where
  subscribe publish : AclAction

abbrev pub as_str : AclAction → String
as_str subscribe = "subscribe"
as_str publish = "publish"

pub data AclDecision : Type 0 where
  allow deny : AclDecision
