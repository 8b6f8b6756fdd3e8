-- ===== src/Transport/Replies.antt =====
-- What the transports send back: crates/cherenkov-transport-ws/src/lib.rs and
-- crates/cherenkov-transport-wt/src/lib.rs.
use cherenkov.Prelude.{ℕ, ◌≡◌, refl, Result, ok, err, arith}
use cherenkov.Protocol.{ClientFrame, ServerFrame}
use cherenkov.Core.Types.{HubError}
use cherenkov.Core.Session.{SessionId}
use cherenkov.Core.Traits.{Platform}
use cherenkov.Core.Hub.{Hub}
use cherenkov.Core.Hub.World.{World}
use cherenkov.Core.Hub.Handlers.{
  handle_connect, handle_subscribe, handle_unsubscribe, handle_publish,
}
use cherenkov.Transport.{Display}
use cherenkov.Transport.Ws
use cherenkov.Transport.Wt

code_for-eq-error_code_for : (e : HubError) → Wt.code_for e ≡ Ws.error_code_for e
unfolding Wt.code_for Ws.error_code_for
code_for-eq-error_code_for e = ground arith

module _ {P : Platform} {E : Type 0} (display : Display E) where
  deliver_error-eq-deliver :
      (id : SessionId) (request_id : ℕ) (e : HubError) (w : World P)
      → Wt.deliver_error display id request_id e w
        ≡ Ws.deliver id (Ws.error_frame display request_id e) w
  unfolding Wt.deliver_error Ws.error_frame Wt.deliver Ws.deliver
  deliver_error-eq-deliver id request_id e w = rw (code_for-eq-error_code_for e) refl

  answered :
      {A : Type 0} (accepted : A → ServerFrame) (id : SessionId) (request_id : ℕ)
      (r : Result HubError A) (w : World P)
      → (elim r as (λ r. World P) [
        | ok a ↦ Wt.deliver id (accepted a) w
        | err e ↦ Wt.deliver_error display id request_id e w
      ])
        ≡ Ws.deliver id (Ws.reply display accepted request_id r) w
  unfolding Wt.deliver Ws.deliver Ws.reply
  answered accepted id request_id (ok a) w = refl
  answered accepted id request_id (err e) w = deliver_error-eq-deliver id request_id e w

  refused :
      {A : Type 0} (id : SessionId) (request_id : ℕ) (r : Result HubError A) (w : World P)
      → (elim r as (λ r. World P) [ ok a ↦ w | err e ↦ Wt.deliver_error display id request_id e w ])
        ≡ (elim r as (λ r. World P) [
          | ok a ↦ w
          | err e ↦ Ws.deliver id (Ws.error_frame display request_id e) w
        ])
  refused id request_id (ok a) w = refl
  refused id request_id (err e) w = deliver_error-eq-deliver id request_id e w

  -- For every frame, session and world, WebTransport changes the world exactly as WebSocket does.
  pub dispatch-eq-handle_frame :
      (hub : Hub P) (f : ClientFrame) (id : SessionId) (w : World P)
      → Wt.dispatch display hub f id w ≡ Ws.handle_frame display hub f id w
  unfolding Wt.dispatch Ws.handle_frame
  dispatch-eq-handle_frame hub (ClientFrame.subscribe s) id w =
      answered ServerFrame.subscribe_ok id s.request_id
        (handle_subscribe hub id s.request_id s.channel s.since_offset w).0 _
  dispatch-eq-handle_frame hub (ClientFrame.unsubscribe u) id w =
      answered ServerFrame.unsubscribe_ok id u.request_id
        (handle_unsubscribe hub id u.request_id u.channel w).0 _
  dispatch-eq-handle_frame hub (ClientFrame.publish p) id w =
      refused id p.request_id (handle_publish hub id p.channel p.payload w).0 _
  dispatch-eq-handle_frame hub (ClientFrame.connect c) id w =
      answered ServerFrame.connect_ok id c.request_id
        (handle_connect hub id c.request_id c.token w).0 _
