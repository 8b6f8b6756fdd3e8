-- ===== src/PubSub.antt =====
-- crates/cherenkov-channel-pubsub/src/lib.rs: the plain pub/sub channel kind with its history.
-- An `Instant` is a number of time units; the clock that `Instant::now` reads is part of the state.
pub mod History
pub mod Replay
pub mod Bounds
use cherenkov.Prelude.{
  ℕ, suc, ◌+◌, ◌-◌, ◌^◌, max, String, Bool, true, false, Option, none, some, Result, ok, err, List,
  [], ◌∷◌, ◌++◌, map, Exec, ltb, ◌==◌, string_eq, if◌then◌else◌, length, filter,
}
use cherenkov.Prelude.Dict
use cherenkov.Prelude.Dict.{Dict}
use cherenkov.Protocol.{Bytes, Publication}
use cherenkov.Core.Types.{ChannelError, ChannelCursor}
use cherenkov.Core.Traits.{ChannelKind}

pub record HistoryEntry : Type 0 where
  pub inserted_at : ℕ
  pub offset : ℕ
  pub payload : Bytes

pub record ChannelState : Type 0 where
  pub next_offset : ℕ
  pub entries : List HistoryEntry

-- The fields of `PubSubChannel` that never change.
pub record PubSubChannel : Type 0 where
  pub epoch : ℕ
  pub history_size : ℕ
  pub history_ttl : ℕ

-- What changes: the map `state`, and the time.
pub record PubSubState : Type 0 where
  pub state : Dict String ChannelState
  pub clock : ℕ

unfoldable pub with_bounds : ℕ → ℕ → PubSubChannel
with_bounds history_size history_ttl = record {
  epoch = 1;
  history_size = max history_size 1;
  history_ttl = history_ttl;
}

-- `DEFAULT_HISTORY_SIZE`, and `DEFAULT_HISTORY_TTL` in seconds
abbrev pub default_channel : PubSubChannel
default_channel = with_bounds 256 300

abbrev pub u64_max : ℕ
u64_max = 2 ^ 64 - 1

-- `saturating_add(1)` on a `u64`
abbrev pub saturating_suc : ℕ → ℕ
saturating_suc n = if ltb n u64_max then suc n else u64_max

-- The loop of `evict_expired`; `saturating_duration_since` stops at 0, as `-` does.
unfoldable pub evict : ℕ → ℕ → List HistoryEntry → List HistoryEntry
evict ttl now [] = []
evict ttl now (front ∷ rest) =
    let popped = evict ttl now rest in
    if ltb ttl (now - front.inserted_at) then popped else front ∷ rest

-- `while entries.len() > history_size { pop_front }`
unfoldable pub trim : ℕ → List HistoryEntry → List HistoryEntry
trim size [] = []
trim size (front ∷ rest) =
    let popped = trim size rest in if ltb size (length (front ∷ rest)) then popped else front ∷ rest

abbrev pub publication_of : String → HistoryEntry → Publication
publication_of channel e = record { channel = channel; offset = e.offset; payload = e.payload }

-- `or_insert_with` of a new channel
abbrev pub state_of : Option ChannelState → ChannelState
state_of none = record { next_offset = 0; entries = [] }
state_of (some s) = s

module _ (k : PubSubChannel) where
  unfoldable pub evict_expired : ℕ → ChannelState → ChannelState
  evict_expired now s = record s { entries = evict k.history_ttl now s.entries }

  unfoldable pub cursor_locked : ChannelState → ChannelCursor
  cursor_locked s = record { epoch = k.epoch; offset = s.next_offset - 1 }

  unfoldable pub cursor : String → PubSubState → ChannelCursor
  cursor channel w = elim (Dict.get w.state channel) [
    | some s ↦ cursor_locked s
    | none ↦ record { epoch = k.epoch; offset = 0 }
  ]

  unfoldable pub history_len : String → PubSubState → ℕ
  history_len channel w = elim (Dict.get w.state channel) [ none ↦ 0 | some s ↦ length s.entries ]

  unfoldable pub on_subscribe : String → Exec PubSubState ChannelError ChannelCursor
  on_subscribe channel w =
      if channel == ""
      then (err (ChannelError.invalid_channel channel), w)
      else (ok (cursor channel w), w)

  unfoldable pub on_unsubscribe : String → Exec PubSubState ChannelError (Unit {0})
  on_unsubscribe channel w = (ok tt, w)

  -- What `on_publish` does under the channel's lock.
  unfoldable pub append : ℕ → Bytes → ChannelState → ChannelState
  unfolding evict_expired
  append now payload s =
      let kept = evict_expired now s in
      record {
        next_offset = saturating_suc kept.next_offset;
        entries = trim k.history_size (
            kept.entries
            ++ record { inserted_at = now; offset = kept.next_offset; payload = payload } ∷ []);
      }

  unfoldable pub on_publish : String → Bytes → Exec PubSubState ChannelError Publication
  on_publish channel payload w =
      if channel == ""
      then (err (ChannelError.invalid_channel channel), w)
      else (let s = state_of (Dict.get w.state channel) in
          (
            ok (record { channel = channel; offset = s.next_offset; payload = payload }),
            record w { state = Dict.put w.state channel (append w.clock payload s) },
          ))

  unfoldable pub replay_since : String → ℕ → Exec PubSubState ChannelError (List Publication)
  replay_since channel since_offset w = elim (Dict.get w.state channel) [
    | none ↦ (ok [], w)
    | some s ↦
        let kept = evict_expired w.clock s in
        (
          ok (map (publication_of channel) (filter (λ e. ltb since_offset e.offset) kept.entries)),
          record w { state = Dict.put w.state channel kept },
        )
  ]

-- `impl ChannelKind for PubSubChannel`
abbrev pub pubsub_kind : ChannelKind
pubsub_kind = record {
  Handle = PubSubChannel;
  State = PubSubState;
  on_subscribe = on_subscribe;
  on_unsubscribe = on_unsubscribe;
  on_publish = on_publish;
  replay_since = replay_since;
}
