-- ===== src/Examples/Protocols.antt =====
-- An encoding in place of `prost`, and instances of the round trips. A message is its tag, its
-- numbers, its text and its bytes.
use cherenkov.Prelude.{
  zero, suc, ◌<◌, ◌^◌, ◌≡◌, ◌↔◌, refl, Option, none, some, [], ◌∷◌, Result, ok, err, arith,
}
use cherenkov.Protocol
use cherenkov.Protocol.{Bytes}
use cherenkov.Protocol.Wire
use cherenkov.Protocol.IntoWire
use cherenkov.Protocol.Codec.{
  Prost, ClientKindInRange, ServerKindInRange, PublicationInRange, IfSome, encode_client,
  encode_server, decode_client, decode_server,
}
use cherenkov.Protocol.Codec.RoundTrip.{
  decode_client-encode_client, decode_server-encode_server, decode_client-eq-ok,
  decode_server-eq-ok,
}
use cherenkov.Examples.Texts.{put_text, with_text, with_text-put_text}

abbrev or_error : {A : Type 0} → Option A → Result (Unit {0}) A
or_error none = err tt
or_error (some a) = ok a

abbrev put_publication : Wire.Publication → Bytes
put_publication p = p.offset ∷ put_text p.channel p.payload

abbrev take_publication : Bytes → Option Wire.Publication
take_publication [] = none
take_publication (offset ∷ xs) =
    with_text xs
      λ channel payload. some (record { channel = channel; offset = offset; payload = payload })

abbrev put_client : Option Wire.ClientKind → Bytes
put_client kind = elim kind [
  | none ↦ []
  | some (Wire.ClientKind.subscribe s) ↦ 0 ∷ s.request_id ∷ s.since_offset ∷ put_text s.channel []
  | some (Wire.ClientKind.unsubscribe u) ↦ 1 ∷ u.request_id ∷ put_text u.channel []
  | some (Wire.ClientKind.publish p) ↦ 2 ∷ p.request_id ∷ put_text p.channel p.payload
  | some (Wire.ClientKind.connect c) ↦ 3 ∷ c.request_id ∷ put_text c.token []
]

abbrev client_of : Wire.ClientKind → Option Wire.ClientFrame
client_of kind = some (record { kind = some kind })

abbrev take_client : Bytes → Option Wire.ClientFrame
take_client [] = some (record { kind = none })
take_client (zero ∷ id ∷ since ∷ xs) = with_text xs λ channel rest. client_of (
    Wire.ClientKind.subscribe (record { request_id = id; channel = channel; since_offset = since }))
take_client (suc zero ∷ id ∷ xs) = with_text xs λ channel rest.
    client_of (Wire.ClientKind.unsubscribe (record { request_id = id; channel = channel }))
take_client (suc (suc zero) ∷ id ∷ xs) = with_text xs λ channel payload.
    client_of
      (Wire.ClientKind.publish (record { request_id = id; channel = channel; payload = payload }))
take_client (suc (suc (suc zero)) ∷ id ∷ xs) =
    with_text xs
      λ token rest. client_of (Wire.ClientKind.connect (record { request_id = id; token = token }))
take_client _ = none

abbrev put_server : Option Wire.ServerKind → Bytes
put_server kind = elim kind [
  | none ↦ []
  | some (Wire.ServerKind.subscribe_ok s) ↦
      0 ∷ s.request_id ∷ s.epoch ∷ s.offset ∷ put_text s.channel []
  | some (Wire.ServerKind.unsubscribe_ok u) ↦ 1 ∷ u.request_id ∷ put_text u.channel []
  | some (Wire.ServerKind.publication p) ↦ 2 ∷ p.offset ∷ put_text p.channel p.payload
  | some (Wire.ServerKind.error e) ↦ 3 ∷ e.request_id ∷ e.code ∷ put_text e.message []
  | some (Wire.ServerKind.connect_ok c) ↦ 4 ∷ c.request_id ∷ c.expires_at ∷ put_text c.subject []
]

abbrev server_of : Wire.ServerKind → Option Wire.ServerFrame
server_of kind = some (record { kind = some kind })

abbrev take_server : Bytes → Option Wire.ServerFrame
take_server [] = some (record { kind = none })
take_server (zero ∷ id ∷ epoch ∷ offset ∷ xs) = with_text xs λ channel rest. server_of (
    Wire.ServerKind.subscribe_ok
      (record { request_id = id; channel = channel; epoch = epoch; offset = offset }))
take_server (suc zero ∷ id ∷ xs) = with_text xs λ channel rest.
    server_of (Wire.ServerKind.unsubscribe_ok (record { request_id = id; channel = channel }))
take_server (suc (suc zero) ∷ offset ∷ xs) = with_text xs λ channel payload.
    server_of (
      Wire.ServerKind.publication
        (record { channel = channel; offset = offset; payload = payload }))
take_server (suc (suc (suc zero)) ∷ id ∷ code ∷ xs) = with_text xs λ message rest.
    server_of (Wire.ServerKind.error (record { request_id = id; code = code; message = message }))
take_server (suc (suc (suc (suc zero))) ∷ id ∷ expires_at ∷ xs) = with_text xs λ subject rest.
    server_of (
      Wire.ServerKind.connect_ok
        (record { request_id = id; subject = subject; expires_at = expires_at }))
take_server _ = none

pub publication_law :
    (p : Wire.Publication) → or_error (take_publication (put_publication p)) ≡ ok p
publication_law p = rw (with_text-put_text p.channel p.payload) refl

pub client_law :
    (o : Option Wire.ClientKind) → or_error (take_client (put_client o)) ≡ ok (record { kind = o })
client_law none = refl
client_law (some (Wire.ClientKind.subscribe s)) = rw (with_text-put_text s.channel []) refl
client_law (some (Wire.ClientKind.unsubscribe u)) = rw (with_text-put_text u.channel []) refl
client_law (some (Wire.ClientKind.publish p)) = rw (with_text-put_text p.channel p.payload) refl
client_law (some (Wire.ClientKind.connect c)) = rw (with_text-put_text c.token []) refl

pub server_law :
    (o : Option Wire.ServerKind) → or_error (take_server (put_server o)) ≡ ok (record { kind = o })
server_law none = refl
server_law (some (Wire.ServerKind.subscribe_ok s)) = rw (with_text-put_text s.channel []) refl
server_law (some (Wire.ServerKind.unsubscribe_ok u)) = rw (with_text-put_text u.channel []) refl
server_law (some (Wire.ServerKind.publication p)) = rw (with_text-put_text p.channel p.payload) refl
server_law (some (Wire.ServerKind.error e)) = rw (with_text-put_text e.message []) refl
server_law (some (Wire.ServerKind.connect_ok c)) = rw (with_text-put_text c.subject []) refl

abbrev pub plain : Prost (Unit {0})
plain = record {
  client = record {
    encode = λ f. put_client f.kind;
    decode = λ bytes. or_error (take_client bytes);
    decode-encode = λ m h. client_law m.kind;
  };
  server = record {
    encode = λ f. put_server f.kind;
    decode = λ bytes. or_error (take_server bytes);
    decode-encode = λ m h. server_law m.kind;
  };
  publication = record {
    encode = put_publication;
    decode = λ bytes. or_error (take_publication bytes);
    decode-encode = λ m h. publication_law m;
  };
}

abbrev subscribe : Protocol.ClientFrame
subscribe =
    Protocol.ClientFrame.subscribe
      (record { request_id = 1; channel = "rooms.a"; since_offset = 3 })

abbrev news : Protocol.Publication
news = record { channel = "rooms.a"; offset = 4; payload = 1 ∷ 255 ∷ [] }

in_range : (4 < 2 ^ 64) × ((1 < 256) × ((255 < 256) × Unit {0}))
in_range = (omega arith, (omega arith, (omega arith, tt)))

subscribe_in_range : IfSome ClientKindInRange (IntoWire.client_frame subscribe).kind
unfolding IntoWire.client_frame
subscribe_in_range = (omega arith, omega arith)

decode_client-encode_client_example :
    decode_client plain (encode_client plain subscribe) ≡ ok subscribe
decode_client-encode_client_example =
    decode_client-encode_client plain subscribe (subscribe_in_range)

news_in_range : PublicationInRange (IntoWire.publication news)
unfolding IntoWire.publication
news_in_range = in_range

frame_in_range :
    IfSome ServerKindInRange (IntoWire.server_frame (Protocol.ServerFrame.publication news)).kind
unfolding IntoWire.server_frame
frame_in_range = in_range

decode_server-encode_server_example :
    decode_server plain (encode_server plain (Protocol.ServerFrame.publication news))
    ≡ ok (Protocol.ServerFrame.publication news)
decode_server-encode_server_example =
    decode_server-encode_server plain (Protocol.ServerFrame.publication news) frame_in_range

decode_client-eq-ok_example :
    (decode_client plain (1 ∷ []) ≡ ok subscribe)
    ↔ (plain.client.decode (1 ∷ []) ≡ ok (IntoWire.client_frame subscribe))
decode_client-eq-ok_example = decode_client-eq-ok plain (1 ∷ []) subscribe

decode_server-eq-ok_example :
    (decode_server plain (1 ∷ []) ≡ ok (Protocol.ServerFrame.publication news)) ↔ (
      plain.server.decode (1 ∷ [])
      ≡ ok (IntoWire.server_frame (Protocol.ServerFrame.publication news)))
decode_server-eq-ok_example =
    decode_server-eq-ok plain (1 ∷ []) (Protocol.ServerFrame.publication news)
