-- ===== src/Core/Hub/Reach.antt =====
-- The entry points of crates/cherenkov-core/src/hub.rs as the steps of a server, and what holds in
-- every world that they reach.
use cherenkov.Prelude.{
  ℕ, suc, ◌^◌, ◌<◌, String, ◌≡◌, ◌≢◌, ap, ◌∙◌, Option, some, none, List, arith, nat_eq, string_eq,
}
use cherenkov.Prelude.Dict.{get-empty}
use cherenkov.Protocol.{Bytes, Publication}
use cherenkov.Core.Session.{
  SessionId, Ref, JoinHandle, SessionRegistry, get_session, new_registry, subscribers_of,
}
use cherenkov.Core.Session.Index.{listed}
use cherenkov.Core.Traits.{Platform}
use cherenkov.Core.Hub.{Hub}
use cherenkov.Core.Hub.World.{World}
use cherenkov.Core.Hub.Forwarding.{forward_each, registry-forward_each}
use cherenkov.Core.Hub.Handlers.{
  open_session, handle_connect, handle_subscribe, handle_unsubscribe, handle_publish, close_session,
  kick_session, drop_session,
}
use cherenkov.Core.Hub.Consistent
use cherenkov.Core.Hub.Consistent.{Consistent}
use cherenkov.Core.Hub.Invariant.{IsConsistent}
use cherenkov.Core.Hub.Preserves.{
  IsConsistent-open_session, Keeps-handle_connect, Keeps-handle_subscribe, Keeps-handle_unsubscribe,
  Keeps-handle_publish, IsConsistent-close_session, IsConsistent-kick_session,
  IsConsistent-drop_session,
}

unregistered :
    (registry : SessionRegistry) (id : SessionId)
    → registry ≡ new_registry
    → get_session id registry ≡ none
unfolding get_session
unregistered registry id e = ap (get_session id) e ∙ get-empty id

unlisted : (id : SessionId) (c : String) → listed id c new_registry ≡ 0
unfolding subscribers_of
unlisted id c = rw (get-empty c)

-- One call of the server's parts: each transport opens, uses and closes sessions, the admin API
-- kicks them, the last `Arc` of a session goes when nothing holds it any more, and a forwarder goes
-- on with what its stream gives.
pub data Step {P : Platform} (hub : Hub P) : World P → World P → Type 0 where
  opened :
      (to : P.mpsc.Sender) (w : World P)
      → suc w.registry.next_id < 2 ^ 64
      → Step hub w (open_session hub to w).1
  connected :
      (id : SessionId) (request_id : ℕ) (token : String) (w : World P)
      → Step hub w (handle_connect hub id request_id token w).1
  subscribed :
      (id : SessionId) (request_id : ℕ) (channel : String) (since_offset : ℕ) (w : World P)
      → Step hub w (handle_subscribe hub id request_id channel since_offset w).1
  unsubscribed :
      (id : SessionId) (request_id : ℕ) (channel : String) (w : World P)
      → Step hub w (handle_unsubscribe hub id request_id channel w).1
  published :
      (id : SessionId) (channel : String) (payload : Bytes) (w : World P)
      → Step hub w (handle_publish hub id channel payload w).1
  closed : (id : SessionId) (w : World P) → Step hub w (close_session id w)
  kicked : (id : SessionId) (w : World P) → Step hub w (kick_session id w).1
  dropped :
      (r : Ref) (w : World P)
      → ((id : SessionId) → get_session id w.registry ≢ some r)
      → Step hub w (drop_session r w)
  forwarded :
      (task : JoinHandle) (items : List (Option Publication)) (w : World P)
      → Step hub w (forward_each task items w)

pub data Reach {P : Platform} (hub : Hub P) (v : World P) : World P → Type 0 where
  here : Reach hub v v
  next : {w u : World P} → Reach hub v w → Step hub w u → Reach hub v u

IsConsistent-empty : {P : Platform} (w : World P) → w.registry ≡ new_registry → IsConsistent w
unfolding Consistent.subscribed
IsConsistent-empty w e = record {
  named = λ id r p. ground (arith, unregistered w.registry id e);
  used = λ id r p. ground (arith, unregistered w.registry id e);
  allocated = λ id r p. ground (arith, unregistered w.registry id e);
  indexed = λ id c. ground (arith, unregistered w.registry id e, ap (listed id c) e, unlisted id c);
}

module _ {P : Platform} {hub : Hub P} where
  Step-IsConsistent : {v w : World P} → Step hub v w → IsConsistent v → IsConsistent w
  Step-IsConsistent (opened to w room) h = IsConsistent-open_session hub to w room h
  Step-IsConsistent (connected id q token w) h = (Keeps-handle_connect hub id q token).at w h
  Step-IsConsistent (subscribed id q c since w) h = (Keeps-handle_subscribe hub id q c since).at w h
  Step-IsConsistent (unsubscribed id q c w) h = (Keeps-handle_unsubscribe hub id q c).at w h
  Step-IsConsistent (published id c payload w) h = (Keeps-handle_publish hub id c payload).at w h
  Step-IsConsistent (closed id w) h = IsConsistent-close_session id w h
  Step-IsConsistent (kicked id w) h = IsConsistent-kick_session id w h
  Step-IsConsistent (dropped r w gone) h = IsConsistent-drop_session r w gone h
  Step-IsConsistent (forwarded task ps w) h =
      let (registry, store, next_ref) = registry-forward_each task ps w in
      rw (registry, store, next_ref) h

  pub Reach-Consistent : {v w : World P} → Reach hub v w → IsConsistent v → IsConsistent w
  Reach-Consistent here h = h
  Reach-Consistent (next path step) h = Step-IsConsistent step (Reach-Consistent path h)

  -- In every world that a server reaches from an empty registry, through any sequence of calls, and of
  -- turns of forwarders, that allocates fewer than 2^64 ids: a registered session stands under its own
  -- id, that id was allocated, and the reverse index lists an id once for each channel that the session
  -- is subscribed to and for no other channel; an id that is not registered is listed nowhere.
  pub Reach-IsConsistent :
      {v w : World P} → Reach hub v w → v.registry ≡ new_registry → IsConsistent w
  Reach-IsConsistent {v} path e = Reach-Consistent path (IsConsistent-empty v e)
