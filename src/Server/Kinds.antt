-- ===== src/Server/Kinds.antt =====
-- The channel kinds that a server of crates/cherenkov-server/src/app.rs runs: a handle is one of the
-- objects behind an `Arc<dyn ChannelKind>`, and its number tells which one.
use cherenkov.Prelude.{ℕ, String, Exec, nat_eq}
use cherenkov.Prelude.Dict.{Dict}
use cherenkov.Core.Types.{ChannelError}
use cherenkov.Core.Traits.{ChannelKind}
use cherenkov.Core.Hub.World.{update}
use cherenkov.PubSub.{PubSubChannel, ChannelState, PubSubState, pubsub_kind}
use cherenkov.Crdt.Yjs.{Yrs, YjsChannel, yjs_kind}
use cherenkov.Crdt.Automerge.{AutoCommit, AutomergeChannel, automerge_kind}

pub data KindHandle : Type 0 where
  pubsub : ℕ → PubSubChannel → KindHandle
  yjs automerge : ℕ → KindHandle

module _ (Y : Yrs) (C : AutoCommit) where
  -- What each object owns, by its number, and the time
  pub record KindStates : Type 0 where
    pub pubsubs : ℕ → Dict String ChannelState
    pub yjss : ℕ → YjsChannel Y
    pub automerges : ℕ → AutomergeChannel C
    pub clock : ℕ

  module _ {A : Type 0} where
    abbrev on_pubsub : ℕ → Exec PubSubState ChannelError A → Exec KindStates ChannelError A
    on_pubsub i m s =
        let (r, t) = m (record { state = s.pubsubs i; clock = s.clock }) in
        (r, record s { pubsubs = update s.pubsubs i t.state })

    abbrev on_yjs : ℕ → Exec (YjsChannel Y) ChannelError A → Exec KindStates ChannelError A
    on_yjs i m s = let (r, t) = m (s.yjss i) in (r, record s { yjss = update s.yjss i t })

    abbrev on_automerge :
        ℕ → Exec (AutomergeChannel C) ChannelError A → Exec KindStates ChannelError A
    on_automerge i m s =
        let (r, t) = m (s.automerges i) in (r, record s { automerges = update s.automerges i t })

    -- A call of the object behind a handle
    unfoldable pub dispatch :
        KindHandle
        → (PubSubChannel → Exec PubSubState ChannelError A)
        → Exec (YjsChannel Y) ChannelError A
        → Exec (AutomergeChannel C) ChannelError A
        → Exec KindStates ChannelError A
    dispatch (pubsub i k) p y a = on_pubsub i (p k)
    dispatch (yjs i) p y a = on_yjs i y
    dispatch (automerge i) p y a = on_automerge i a

  abbrev pub server_kinds : ChannelKind
  server_kinds = record {
    Handle = KindHandle;
    State = KindStates;
    on_subscribe = λ h c.
        dispatch h (λ k. pubsub_kind.on_subscribe k c) ((yjs_kind Y).on_subscribe tt c)
          ((automerge_kind C).on_subscribe tt c);
    on_unsubscribe = λ h c.
        dispatch h (λ k. pubsub_kind.on_unsubscribe k c) ((yjs_kind Y).on_unsubscribe tt c)
          ((automerge_kind C).on_unsubscribe tt c);
    on_publish = λ h c payload.
        dispatch h (λ k. pubsub_kind.on_publish k c payload) ((yjs_kind Y).on_publish tt c payload)
          ((automerge_kind C).on_publish tt c payload);
    replay_since = λ h c since_offset.
        dispatch h (λ k. pubsub_kind.replay_since k c since_offset)
          ((yjs_kind Y).replay_since tt c since_offset)
          ((automerge_kind C).replay_since tt c since_offset);
  }
