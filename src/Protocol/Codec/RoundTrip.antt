-- ===== src/Protocol/Codec/RoundTrip.antt =====
-- crates/cherenkov-protocol/src/frame.rs: decoding inverts encoding, frame by frame.
use cherenkov.Prelude.{◌≡◌, refl, ◌↔◌, inl, inr, ◌∙◌, ap, arith, ok, Result-cases}
use cherenkov.Protocol.{Bytes}
use cherenkov.Protocol
use cherenkov.Protocol.Wire
use cherenkov.Protocol.IntoWire
use cherenkov.Protocol.FromWire
use cherenkov.Protocol.Codec.{
  Prost, ClientKindInRange, ServerKindInRange, PublicationInRange, IfSome, encode_client,
  encode_server, encode_publication, decode_client, decode_server, decode_publication,
}

client_frame-client_frame :
    {E : Type 0} (f : Protocol.ClientFrame)
    → FromWire.client_frame {E = E} (IntoWire.client_frame f) ≡ ok f
unfolding FromWire.client_frame IntoWire.client_frame
client_frame-client_frame (Protocol.ClientFrame.subscribe v) = refl
client_frame-client_frame (Protocol.ClientFrame.unsubscribe v) = refl
client_frame-client_frame (Protocol.ClientFrame.publish v) = refl
client_frame-client_frame (Protocol.ClientFrame.connect v) = refl

server_frame-server_frame :
    {E : Type 0} (f : Protocol.ServerFrame)
    → FromWire.server_frame {E = E} (IntoWire.server_frame f) ≡ ok f
unfolding FromWire.server_frame IntoWire.server_frame
server_frame-server_frame (Protocol.ServerFrame.subscribe_ok v) = refl
server_frame-server_frame (Protocol.ServerFrame.unsubscribe_ok v) = refl
server_frame-server_frame (Protocol.ServerFrame.publication v) = refl
server_frame-server_frame (Protocol.ServerFrame.error v) = refl
server_frame-server_frame (Protocol.ServerFrame.connect_ok v) = refl

module _ {E : Type 0} (prost : Prost E) where
  -- A client frame whose numbers and bytes are in the ranges of the schema decodes to itself.
  pub decode_client-encode_client :
      (f : Protocol.ClientFrame)
      → IfSome ClientKindInRange (IntoWire.client_frame f).kind
      → decode_client prost (encode_client prost f) ≡ ok f
  unfolding decode_client encode_client
  decode_client-encode_client f h =
      rw (prost.client.decode-encode (IntoWire.client_frame f) h, decode_client)
        (client_frame-client_frame f)

  -- A server frame whose numbers and bytes are in the ranges of the schema decodes to itself.
  pub decode_server-encode_server :
      (f : Protocol.ServerFrame)
      → IfSome ServerKindInRange (IntoWire.server_frame f).kind
      → decode_server prost (encode_server prost f) ≡ ok f
  unfolding decode_server encode_server
  decode_server-encode_server f h =
      rw (prost.server.decode-encode (IntoWire.server_frame f) h, decode_server)
        (server_frame-server_frame f)

  -- A publication in range decodes to itself.
  pub decode_publication-encode_publication :
      (p : Protocol.Publication)
      → PublicationInRange (IntoWire.publication p)
      → decode_publication prost (encode_publication prost p) ≡ ok p
  unfolding decode_publication encode_publication FromWire.publication IntoWire.publication
  decode_publication-encode_publication p h =
      rw (prost.publication.decode-encode (IntoWire.publication p) h, decode_publication)

  client_frame_of_ok :
      (m : Wire.ClientFrame) (f : Protocol.ClientFrame)
      → FromWire.client_frame {E = E} m ≡ ok f
      → m ≡ IntoWire.client_frame f
  unfolding FromWire.client_frame IntoWire.client_frame
  client_frame_of_ok m f h = ground arith

  -- Bytes decode to a client frame exactly when they parse to that frame's wire message.
  pub decode_client-eq-ok :
      (bytes : Bytes) (f : Protocol.ClientFrame)
      → (decode_client prost bytes ≡ ok f)
        ↔ (prost.client.decode bytes ≡ ok (IntoWire.client_frame f))
  unfolding decode_client
  decode_client-eq-ok bytes f = (forward, λ e. rw (e, decode_client) (client_frame-client_frame f))
    where
      forward :
          decode_client prost bytes ≡ ok f
          → prost.client.decode bytes ≡ ok (IntoWire.client_frame f)
      forward h = elim (Result-cases (prost.client.decode bytes)) [
        | inl (m, e) ↦ e ∙ ap ok (client_frame_of_ok m f (ground (arith, e, h)))
        | inr (x, e) ↦ absurd (ground (arith, e, h))
      ]

  server_frame_of_ok :
      (m : Wire.ServerFrame) (f : Protocol.ServerFrame)
      → FromWire.server_frame {E = E} m ≡ ok f
      → m ≡ IntoWire.server_frame f
  unfolding FromWire.server_frame IntoWire.server_frame
  server_frame_of_ok m f h = ground arith

  -- Bytes decode to a server frame exactly when they parse to that frame's wire message.
  pub decode_server-eq-ok :
      (bytes : Bytes) (f : Protocol.ServerFrame)
      → (decode_server prost bytes ≡ ok f)
        ↔ (prost.server.decode bytes ≡ ok (IntoWire.server_frame f))
  unfolding decode_server
  decode_server-eq-ok bytes f = (forward, λ e. rw (e, decode_server) (server_frame-server_frame f))
    where
      forward :
          decode_server prost bytes ≡ ok f
          → prost.server.decode bytes ≡ ok (IntoWire.server_frame f)
      forward h = elim (Result-cases (prost.server.decode bytes)) [
        | inl (m, e) ↦ e ∙ ap ok (server_frame_of_ok m f (ground (arith, e, h)))
        | inr (x, e) ↦ absurd (ground (arith, e, h))
      ]
