-- ===== src/Protocol.antt =====
-- crates/cherenkov-protocol/src/frame.rs: the frames that cross crate boundaries.
pub mod Wire
pub mod IntoWire
pub mod FromWire
pub mod Codec
use cherenkov.Prelude.{ℕ, String, List}

-- `bytes::Bytes` and `Vec<u8>`
abbrev pub Bytes : Type 0
Bytes = List ℕ

pub record Subscribe : Type 0 where
  pub request_id : ℕ
  pub channel : String
  pub since_offset : ℕ

pub record Unsubscribe : Type 0 where
  pub request_id : ℕ
  pub channel : String

pub record Publish : Type 0 where
  pub request_id : ℕ
  pub channel : String
  pub payload : Bytes

pub record SubscribeOk : Type 0 where
  pub request_id : ℕ
  pub channel : String
  pub epoch : ℕ
  pub offset : ℕ

pub record UnsubscribeOk : Type 0 where
  pub request_id : ℕ
  pub channel : String

pub record Publication : Type 0 where
  pub channel : String
  pub offset : ℕ
  pub payload : Bytes

pub record Connect : Type 0 where
  pub request_id : ℕ
  pub token : String

pub record ConnectOk : Type 0 where
  pub request_id : ℕ
  pub subject : String
  pub expires_at : ℕ

pub record ProtocolError : Type 0 where
  pub request_id : ℕ
  pub code : ℕ
  pub message : String

pub data ClientFrame : Type 0 where
  subscribe : Subscribe → ClientFrame
  unsubscribe : Unsubscribe → ClientFrame
  publish : Publish → ClientFrame
  connect : Connect → ClientFrame

pub data ServerFrame : Type 0 where
  subscribe_ok : SubscribeOk → ServerFrame
  unsubscribe_ok : UnsubscribeOk → ServerFrame
  publication : Publication → ServerFrame
  error : ProtocolError → ServerFrame
  connect_ok : ConnectOk → ServerFrame

pub data ErrorCode : Type 0 where
  invalid_frame invalid_channel unauthorized internal : ErrorCode
  validation_failed invalid_token acl_denied not_connected : ErrorCode

-- `impl From<ErrorCode> for u32`, with the discriminants of the enum
unfoldable pub code_number : ErrorCode → ℕ
code_number invalid_frame = 1
code_number invalid_channel = 2
code_number unauthorized = 3
code_number internal = 4
code_number validation_failed = 5
code_number invalid_token = 6
code_number acl_denied = 7
code_number not_connected = 8

-- `E` stands for `prost::DecodeError`.
pub data DecodeError (E : Type 0) : Type 0 where
  prost : E → DecodeError E
  missing_client_kind : DecodeError E
  missing_server_kind : DecodeError E
