-- ===== src/Protocol/IntoWire.antt =====
-- crates/cherenkov-protocol/src/frame.rs: `From` of the wrappers for the wire messages.
use cherenkov.Prelude.{some}
use cherenkov.Protocol
use cherenkov.Protocol.Wire

unfoldable pub subscribe : Protocol.Subscribe → Wire.Subscribe
subscribe v = record {
  request_id = v.request_id;
  channel = v.channel;
  since_offset = v.since_offset;
}

unfoldable pub unsubscribe : Protocol.Unsubscribe → Wire.Unsubscribe
unsubscribe v = record { request_id = v.request_id; channel = v.channel }

unfoldable pub publish : Protocol.Publish → Wire.Publish
publish v = record { request_id = v.request_id; channel = v.channel; payload = v.payload }

unfoldable pub connect : Protocol.Connect → Wire.Connect
connect v = record { request_id = v.request_id; token = v.token }

unfoldable pub subscribe_ok : Protocol.SubscribeOk → Wire.SubscribeOk
subscribe_ok v = record {
  request_id = v.request_id;
  channel = v.channel;
  epoch = v.epoch;
  offset = v.offset;
}

unfoldable pub unsubscribe_ok : Protocol.UnsubscribeOk → Wire.UnsubscribeOk
unsubscribe_ok v = record { request_id = v.request_id; channel = v.channel }

unfoldable pub publication : Protocol.Publication → Wire.Publication
publication v = record { channel = v.channel; offset = v.offset; payload = v.payload }

unfoldable pub error : Protocol.ProtocolError → Wire.Error
error v = record { request_id = v.request_id; code = v.code; message = v.message }

unfoldable pub connect_ok : Protocol.ConnectOk → Wire.ConnectOk
connect_ok v = record { request_id = v.request_id; subject = v.subject; expires_at = v.expires_at }

unfoldable pub client_frame : Protocol.ClientFrame → Wire.ClientFrame
unfolding subscribe unsubscribe publish connect
client_frame (Protocol.ClientFrame.subscribe v) = record {
  kind = some (Wire.ClientKind.subscribe (subscribe v));
}
client_frame (Protocol.ClientFrame.unsubscribe v) = record {
  kind = some (Wire.ClientKind.unsubscribe (unsubscribe v));
}
client_frame (Protocol.ClientFrame.publish v) = record {
  kind = some (Wire.ClientKind.publish (publish v));
}
client_frame (Protocol.ClientFrame.connect v) = record {
  kind = some (Wire.ClientKind.connect (connect v));
}

unfoldable pub server_frame : Protocol.ServerFrame → Wire.ServerFrame
unfolding subscribe_ok unsubscribe_ok publication error connect_ok
server_frame (Protocol.ServerFrame.subscribe_ok v) = record {
  kind = some (Wire.ServerKind.subscribe_ok (subscribe_ok v));
}
server_frame (Protocol.ServerFrame.unsubscribe_ok v) = record {
  kind = some (Wire.ServerKind.unsubscribe_ok (unsubscribe_ok v));
}
server_frame (Protocol.ServerFrame.publication v) = record {
  kind = some (Wire.ServerKind.publication (publication v));
}
server_frame (Protocol.ServerFrame.error v) = record {
  kind = some (Wire.ServerKind.error (error v));
}
server_frame (Protocol.ServerFrame.connect_ok v) = record {
  kind = some (Wire.ServerKind.connect_ok (connect_ok v));
}
