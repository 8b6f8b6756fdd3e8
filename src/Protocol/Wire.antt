-- ===== src/Protocol/Wire.antt =====
-- crates/cherenkov-protocol/proto/v1.proto: the messages, as the build generates them.
-- `string` and `bytes` are `String` and lists of numbers; an unset `oneof` is `none`.
use cherenkov.Prelude.{ℕ, String, Option, List}

pub record Subscribe : Type 0 where
  pub request_id : ℕ
  pub channel : String
  pub since_offset : ℕ

pub record Unsubscribe : Type 0 where
  pub request_id : ℕ
  pub channel : String

pub record Publish : Type 0 where
  pub request_id : ℕ
  pub channel : String
  pub payload : List ℕ

pub record SubscribeOk : Type 0 where
  pub request_id : ℕ
  pub channel : String
  pub epoch : ℕ
  pub offset : ℕ

pub record UnsubscribeOk : Type 0 where
  pub request_id : ℕ
  pub channel : String

pub record Publication : Type 0 where
  pub channel : String
  pub offset : ℕ
  pub payload : List ℕ

pub record Connect : Type 0 where
  pub request_id : ℕ
  pub token : String

pub record ConnectOk : Type 0 where
  pub request_id : ℕ
  pub subject : String
  pub expires_at : ℕ

pub record Error : Type 0 where
  pub request_id : ℕ
  pub code : ℕ
  pub message : String

pub data ClientKind : Type 0 where
  subscribe : Subscribe → ClientKind
  unsubscribe : Unsubscribe → ClientKind
  publish : Publish → ClientKind
  connect : Connect → ClientKind

pub record ClientFrame : Type 0 where
  pub kind : Option ClientKind

pub data ServerKind : Type 0 where
  subscribe_ok : SubscribeOk → ServerKind
  unsubscribe_ok : UnsubscribeOk → ServerKind
  publication : Publication → ServerKind
  error : Error → ServerKind
  connect_ok : ConnectOk → ServerKind

pub record ServerFrame : Type 0 where
  pub kind : Option ServerKind
