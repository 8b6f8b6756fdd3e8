-- ===== src/Protocol/Codec.antt =====
-- crates/cherenkov-protocol/src/frame.rs: encoding and decoding of whole frames.
-- `prost` is a parameter, with the law that decoding what was encoded returns the message.
pub mod RoundTrip
use cherenkov.Prelude.{
  ℕ, ◌^◌, ◌<◌, ◌≡◌, Option, none, some, List, [], ◌∷◌, Result, ok, err, map_err,
}
use cherenkov.Protocol.{DecodeError, Bytes}
use cherenkov.Protocol
use cherenkov.Protocol.Wire
use cherenkov.Protocol.IntoWire
use cherenkov.Protocol.FromWire

-- The ranges of the scalar types of v1.proto.
abbrev pub U64 : ℕ → Type 0
U64 n = n < 2 ^ 64

abbrev pub U32 : ℕ → Type 0
U32 n = n < 2 ^ 32

abbrev pub AreBytes : List ℕ → Type 0
AreBytes [] = Unit {0}
AreBytes (b ∷ bs) = (b < 256) × AreBytes bs

abbrev pub PublicationInRange : Wire.Publication → Type 0
PublicationInRange p = U64 p.offset × AreBytes p.payload

abbrev pub ClientKindInRange : Wire.ClientKind → Type 0
ClientKindInRange (Wire.ClientKind.subscribe s) = U64 s.request_id × U64 s.since_offset
ClientKindInRange (Wire.ClientKind.unsubscribe u) = U64 u.request_id
ClientKindInRange (Wire.ClientKind.publish p) = U64 p.request_id × AreBytes p.payload
ClientKindInRange (Wire.ClientKind.connect c) = U64 c.request_id

abbrev pub ServerKindInRange : Wire.ServerKind → Type 0
ServerKindInRange (Wire.ServerKind.subscribe_ok s) = U64 s.request_id × U64 s.epoch × U64 s.offset
ServerKindInRange (Wire.ServerKind.unsubscribe_ok u) = U64 u.request_id
ServerKindInRange (Wire.ServerKind.publication p) = PublicationInRange p
ServerKindInRange (Wire.ServerKind.error e) = U64 e.request_id × U32 e.code
ServerKindInRange (Wire.ServerKind.connect_ok c) = U64 c.request_id × U64 c.expires_at

abbrev pub IfSome : {A : Type 0} → (A → Type 0) → Option A → Type 0
IfSome P none = Unit {0}
IfSome P (some a) = P a

-- `prost::Message` for one message type.
pub record Message (E M : Type 0) (InRange : M → Type 0) : Type 0 where
  pub encode : M → Bytes
  pub decode : Bytes → Result E M
  pub decode-encode : (m : M) → InRange m → decode (encode m) ≡ ok m

-- `prost` and the code that it generates.
pub record Prost (E : Type 0) : Type 0 where
  pub client : Message E Wire.ClientFrame (λ f. IfSome ClientKindInRange f.kind)
  pub server : Message E Wire.ServerFrame (λ f. IfSome ServerKindInRange f.kind)
  pub publication : Message E Wire.Publication PublicationInRange

module _ {E : Type 0} (prost : Prost E) where
  pub encode_client : Protocol.ClientFrame → Bytes
  encode_client frame = prost.client.encode (IntoWire.client_frame frame)

  pub encode_server : Protocol.ServerFrame → Bytes
  encode_server frame = prost.server.encode (IntoWire.server_frame frame)

  unfoldable pub encode_publication : Protocol.Publication → Bytes
  encode_publication p = prost.publication.encode (IntoWire.publication p)

  unfoldable pub decode_publication : Bytes → Result (DecodeError E) Protocol.Publication
  decode_publication bytes = elim (prost.publication.decode bytes) [
    | ok p ↦ ok (FromWire.publication p)
    | err e ↦ err (DecodeError.prost e)
  ]

  pub decode_client : Bytes → Result (DecodeError E) Protocol.ClientFrame
  decode_client bytes = elim (prost.client.decode bytes) [
    | ok frame ↦ FromWire.client_frame frame
    | err e ↦ err (DecodeError.prost e)
  ]

  pub decode_server : Bytes → Result (DecodeError E) Protocol.ServerFrame
  decode_server bytes = elim (prost.server.decode bytes) [
    | ok frame ↦ FromWire.server_frame frame
    | err e ↦ err (DecodeError.prost e)
  ]
