-- ===== src/PubSub/Bounds.antt =====
-- How much history crates/cherenkov-channel-pubsub/src/lib.rs keeps, and what its cursor says.
use cherenkov.Prelude.{
  refl, ap, ◌∙◌, List, ◌++◌, Result, ok, ℕ, ◌≤◌, ◌<◌, max, String, ◌≡◌, ◌≢◌, [], ◌∷◌, arith, none,
  some, string_eq, beq_refl, beq-eq_false,
}
use cherenkov.Prelude.Dict
use cherenkov.Prelude.Dict.{get-put}
use cherenkov.Prelude.Suffix.{IsSuffix, IsSuffix-trans}
use cherenkov.Core.Types.{ChannelError}
use cherenkov.Protocol.{Bytes, Publication}
use cherenkov.PubSub.{
  HistoryEntry, PubSubChannel, PubSubState, with_bounds, append, on_publish, cursor, history_len,
  cursor_locked, state_of, evict, publication_of,
}
use cherenkov.PubSub.History.{length-trim-le, trim-append, evict-IsSuffix}

-- The entries that a channel holds
abbrev pub history : String → PubSubState → List HistoryEntry
history channel w = (state_of (Dict.get w.state channel)).entries

-- The state of a named channel after a publication.
get-on_publish :
    (k : PubSubChannel) (channel : String) (payload : Bytes) (w : PubSubState)
    → channel ≢ ""
    → Dict.get (on_publish k channel payload w).1.state channel
      ≡ some (append k w.clock payload (state_of (Dict.get w.state channel)))
unfolding on_publish
get-on_publish k channel payload w named = ground (
  arith,
  beq-eq_false channel "" named,
  beq_refl channel,
  get-put w.state channel channel (append k w.clock payload (state_of (Dict.get w.state channel))),
)

ok-on_publish :
    (k : PubSubChannel) (channel : String) (payload : Bytes) (w : PubSubState)
    → channel ≢ ""
    → (on_publish k channel payload w).0
      ≡ ok (record {
        channel = channel;
        offset = (state_of (Dict.get w.state channel)).next_offset;
        payload = payload;
      })
unfolding on_publish
ok-on_publish k channel payload w named = ground (arith, beq-eq_false channel "" named)

-- A channel's history after a publication
pub record Holds (k : PubSubChannel) (channel : String) (payload : Bytes) (w v : PubSubState)
    (r : Result ChannelError Publication) : Type 0 where
  pub older : List HistoryEntry
  pub newest : HistoryEntry
  pub content : newest.payload ≡ payload
  pub at : newest.inserted_at ≡ w.clock
  pub announced : r ≡ ok (publication_of channel newest)
  pub ends : history channel v ≡ older ++ newest ∷ []
  pub recent : IsSuffix older (history channel w)
  pub bounded : history_len k channel v ≤ k.history_size

on_publish-Holds :
    (k : PubSubChannel) (channel : String) (payload : Bytes) (w : PubSubState)
    → 0 < k.history_size
    → channel ≢ ""
    → Holds k channel payload w
        (on_publish k channel payload w).1
        (on_publish k channel payload w).0
unfolding history_len append
on_publish-Holds k channel payload w room named =
    let s = state_of (Dict.get w.state channel) in
    let entry : HistoryEntry = record {
      inserted_at = w.clock;
      offset = s.next_offset;
      payload = payload;
    } in
    let held = get-on_publish k channel payload w named in
    let kept = evict k.history_ttl w.clock s.entries in
    let (older, same, recent) = trim-append k.history_size kept entry room in
    record {
      older = older;
      newest = entry;
      content = refl;
      at = refl;
      announced = ok-on_publish k channel payload w named;
      ends = ap (λ o. (state_of o).entries) held ∙ same;
      recent = IsSuffix-trans recent (evict-IsSuffix k.history_ttl w.clock s.entries);
      bounded = rw (held, history_len) (length-trim-le k.history_size (kept ++ entry ∷ []));
    }

-- After a publication in a named channel, its history ends with that publication, under the offset
-- that was answered and the present time. Before it stand the latest of the entries that were held,
-- in their order; together they are at most the configured number, where a configured size of 0
-- counts as 1.
pub history_len-on_publish :
    (size ttl : ℕ) (channel : String) (payload : Bytes) (w : PubSubState)
    → channel ≢ ""
    → Holds
        (with_bounds size ttl)
        channel
        payload
        w
        (on_publish (with_bounds size ttl) channel payload w).1
        (on_publish (with_bounds size ttl) channel payload w).0
      × (history_len
            (with_bounds size ttl)
            channel
            (on_publish (with_bounds size ttl) channel payload w).1
          ≤ max size 1)
unfolding with_bounds
history_len-on_publish size ttl channel payload w named =
    let held = on_publish-Holds (with_bounds size ttl) channel payload w (omega arith) named in
    (held, held.bounded)

-- The cursor of a named channel that nobody has published to is the cursor after its first
-- publication.
pub cursor_ambiguous :
    (k : PubSubChannel) (channel : String) (payload : Bytes) (w : PubSubState)
    → channel ≢ ""
    → Dict.get w.state channel ≡ none
    → cursor k channel (on_publish k channel payload w).1 ≡ cursor k channel w
unfolding cursor cursor_locked append
cursor_ambiguous k channel payload w named untouched =
    ground (arith, untouched, get-on_publish k channel payload w named)
