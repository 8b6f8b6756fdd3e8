-- ===== src/Protocol/FromWire.antt =====
-- crates/cherenkov-protocol/src/frame.rs: the wire messages back to the wrappers.
use cherenkov.Prelude.{none, some, Result, ok, err}
use cherenkov.Protocol
use cherenkov.Protocol.{DecodeError}
use cherenkov.Protocol.Wire

unfoldable pub subscribe : Wire.Subscribe → Protocol.Subscribe
subscribe v = record {
  request_id = v.request_id;
  channel = v.channel;
  since_offset = v.since_offset;
}

unfoldable pub unsubscribe : Wire.Unsubscribe → Protocol.Unsubscribe
unsubscribe v = record { request_id = v.request_id; channel = v.channel }

unfoldable pub publish : Wire.Publish → Protocol.Publish
publish v = record { request_id = v.request_id; channel = v.channel; payload = v.payload }

unfoldable pub connect : Wire.Connect → Protocol.Connect
connect v = record { request_id = v.request_id; token = v.token }

unfoldable pub subscribe_ok : Wire.SubscribeOk → Protocol.SubscribeOk
subscribe_ok v = record {
  request_id = v.request_id;
  channel = v.channel;
  epoch = v.epoch;
  offset = v.offset;
}

unfoldable pub unsubscribe_ok : Wire.UnsubscribeOk → Protocol.UnsubscribeOk
unsubscribe_ok v = record { request_id = v.request_id; channel = v.channel }

unfoldable pub publication : Wire.Publication → Protocol.Publication
publication v = record { channel = v.channel; offset = v.offset; payload = v.payload }

unfoldable pub error : Wire.Error → Protocol.ProtocolError
error v = record { request_id = v.request_id; code = v.code; message = v.message }

unfoldable pub connect_ok : Wire.ConnectOk → Protocol.ConnectOk
connect_ok v = record { request_id = v.request_id; subject = v.subject; expires_at = v.expires_at }

unfoldable pub client_kind : Wire.ClientKind → Protocol.ClientFrame
unfolding subscribe unsubscribe publish connect
client_kind (Wire.ClientKind.subscribe v) = Protocol.ClientFrame.subscribe (subscribe v)
client_kind (Wire.ClientKind.unsubscribe v) = Protocol.ClientFrame.unsubscribe (unsubscribe v)
client_kind (Wire.ClientKind.publish v) = Protocol.ClientFrame.publish (publish v)
client_kind (Wire.ClientKind.connect v) = Protocol.ClientFrame.connect (connect v)

unfoldable pub server_kind : Wire.ServerKind → Protocol.ServerFrame
unfolding subscribe_ok unsubscribe_ok publication error connect_ok
server_kind (Wire.ServerKind.subscribe_ok v) = Protocol.ServerFrame.subscribe_ok (subscribe_ok v)
server_kind (Wire.ServerKind.unsubscribe_ok v) =
    Protocol.ServerFrame.unsubscribe_ok (unsubscribe_ok v)
server_kind (Wire.ServerKind.publication v) = Protocol.ServerFrame.publication (publication v)
server_kind (Wire.ServerKind.error v) = Protocol.ServerFrame.error (error v)
server_kind (Wire.ServerKind.connect_ok v) = Protocol.ServerFrame.connect_ok (connect_ok v)

unfoldable pub client_frame :
    {E : Type 0} → Wire.ClientFrame → Result (DecodeError E) Protocol.ClientFrame
unfolding client_kind
client_frame v = elim v.kind [
  | none ↦ err DecodeError.missing_client_kind
  | some kind ↦ ok (client_kind kind)
]

unfoldable pub server_frame :
    {E : Type 0} → Wire.ServerFrame → Result (DecodeError E) Protocol.ServerFrame
unfolding server_kind
server_frame v = elim v.kind [
  | none ↦ err DecodeError.missing_server_kind
  | some kind ↦ ok (server_kind kind)
]
