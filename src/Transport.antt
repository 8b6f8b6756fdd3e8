-- ===== src/Transport.antt =====
-- The transports: what crates/cherenkov-transport-ws and crates/cherenkov-transport-wt do with the
-- frames of a connection.
pub mod Ws
pub mod Wt
pub mod Sse
pub mod Replies
pub mod Socket
use cherenkov.Prelude.{String}
use cherenkov.Protocol.{DecodeError}
use cherenkov.Core.Types.{HubError}

-- The `Display` of errors, which `thiserror` derives.
pub record Display (E : Type 0) : Type 0 where
  pub hub_error : HubError → String
  pub invalid_frame : DecodeError E → String
