-- ===== src/PubSub/Replay.antt =====
-- `on_publish` and `replay_since` of crates/cherenkov-channel-pubsub/src/lib.rs against the log of a
-- channel.
use cherenkov.Prelude.{
  ℕ, zero, suc, ◌+◌, ◌-◌, ◌<◌, max, String, ◌≡◌, ◌≢◌, sym, ap, ◌∙◌, List, [], ◌∷◌, ◌++◌, map, some,
  arith, ltb, length, drop, filter, ok, ◌==◌, string_eq, eq_iff, Option-cases, inl, inr, false,
  beq_refl, beq-eq_false, subst,
}
use native.Mathlib.Decide.{dec_lt}
use cherenkov.Prelude.Dict
use cherenkov.Prelude.Dict.{get-put}
use cherenkov.Prelude.Suffix.{drop-drop, drop-IsSuffix, drop-nil}
use cherenkov.Protocol.{Bytes}
use cherenkov.PubSub.{
  HistoryEntry, ChannelState, PubSubChannel, PubSubState, evict, evict_expired, append, on_publish,
  replay_since, state_of, publication_of, u64_max,
}
use cherenkov.PubSub.History.{Numbered, Represents, append-Represents, evict_expired-Represents}

module _ (k : PubSubChannel) where
  -- The channel has seen exactly the publications of `log`.
  abbrev pub Recorded : String → List HistoryEntry → PubSubState → Type 0
  Recorded channel log w = Represents log (state_of (Dict.get w.state channel))

  abbrev pub next_entry : List HistoryEntry → Bytes → PubSubState → HistoryEntry
  next_entry log payload w = record {
    inserted_at = w.clock;
    offset = length log;
    payload = payload;
  }

  -- Where a named channel has seen exactly the publications of `log`, fewer than 2^64 - 1, a
  -- publication succeeds with their number as its offset, the channel then has seen `log` and it, and
  -- every other channel is as before.
  pub on_publish-Recorded :
      (channel : String) (payload : Bytes) (log : List HistoryEntry) (w : PubSubState)
      → channel ≢ ""
      → length log < u64_max
      → Recorded channel log w
      → ((on_publish k channel payload w).0
          ≡ ok (record { channel = channel; offset = length log; payload = payload }))
        × Recorded channel (log ++ next_entry log payload w ∷ []) (on_publish k channel payload w).1
        × ((other : String)
            → other ≢ channel
            → Dict.get (on_publish k channel payload w).1.state other ≡ Dict.get w.state other)
  unfolding on_publish
  on_publish-Recorded channel payload log w named room h = (
    ground (arith, h.counted, unnamed),
    rw now_there (append-Represents k w.clock payload log _ room h),
    λ other ne.
        ground (arith, unnamed, ne, eq_iff channel other, get-put w.state channel other after),
  )
    where
      after : ChannelState
      after = append k w.clock payload (state_of (Dict.get w.state channel))

      unnamed : (channel == "") ≡ false
      unnamed = beq-eq_false channel "" named

      now_there : Dict.get (on_publish k channel payload w).1.state channel ≡ some after
      now_there = ground (arith, unnamed, get-put w.state channel channel after, beq_refl channel)

-- Counting offsets turn the filter on offsets into a drop.
filter-Numbered :
    (since n : ℕ) (es : List HistoryEntry)
    → Numbered n es
    → filter (λ e. ltb since e.offset) es ≡ drop (suc since - n) es
filter-Numbered since n [] h = sym (drop-nil (suc since - n))
filter-Numbered since n (e ∷ es) (at, h) = elim (dec_lt since n) [
  | yes p ↦ ground (
    arith,
    filter-Numbered since (suc n) es h,
    at,
    ap (λ m. drop m (e ∷ es)) (none_left p),
    ap (λ m. drop m es) (next_none p),
  )
  | no p ↦
      ground (arith, filter-Numbered since (suc n) es h, at, ap (λ m. drop m (e ∷ es)) (one_less p))
]
  where
    none_left : since < n → suc since - n ≡ zero
    none_left p = omega arith

    next_none : since < n → suc since - suc n ≡ zero
    next_none p = omega arith

    one_less : ¬ (since < n) → suc since - n ≡ suc (suc since - suc n)
    one_less p = omega arith

Numbered-drop :
    (n d m : ℕ) (es : List HistoryEntry) → n + d ≡ m → Numbered n es → Numbered m (drop d es)
Numbered-drop n zero m es p h = subst (λ l. Numbered l es) (omega arith) h
Numbered-drop n (suc d) m [] p h = tt
Numbered-drop n (suc d) m (e ∷ es) p h = Numbered-drop (suc n) d m es (omega arith) h.1

replay_since-filter :
    (k : PubSubChannel) (channel : String) (since : ℕ) (w : PubSubState)
    → (replay_since k channel since w).0
      ≡ ok (
          map (publication_of channel) (
            filter
              (λ e. ltb since e.offset)
              (evict_expired k w.clock (state_of (Dict.get w.state channel))).entries))
unfolding replay_since evict_expired evict
replay_since-filter k channel since w = elim (Option-cases (Dict.get w.state channel)) [
  | inl e ↦ rw (e, replay_since)
  | inr (s, e) ↦ rw (e, replay_since)
]

module _ (k : PubSubChannel) where
  -- How many publications a replay can start from: what is retained and has not expired.
  abbrev pub retained : String → PubSubState → ℕ
  retained channel w =
      length (evict_expired k w.clock (state_of (Dict.get w.state channel))).entries

  -- Where the channel has seen exactly the publications of `log`, a replay returns, in order and
  -- without gaps, every publication of `log` after `since_offset` that is among the retained ones.
  pub replay_since-Recorded :
      (channel : String) (since : ℕ) (log : List HistoryEntry) (w : PubSubState)
      → Recorded k channel log w
      → (replay_since k channel since w).0
        ≡ ok (
            map
              (publication_of channel)
              (drop (max (suc since) (length log - retained channel w)) log))
  replay_since-Recorded channel since log w h =
      answer ∙ ap (λ es. ok (map (publication_of channel) es)) after
    where
      kept : ChannelState
      kept = evict_expired k w.clock (state_of (Dict.get w.state channel))

      kept-Represents : Represents log kept
      kept-Represents = evict_expired-Represents k w.clock log _ h

      lost : ℕ
      lost = length log - length kept.entries

      answer :
          (replay_since k channel since w).0
          ≡ ok (map (publication_of channel) (filter (λ e. ltb since e.offset) kept.entries))
      answer = replay_since-filter k channel since w

      numbered : Numbered lost kept.entries
      numbered =
          subst (Numbered lost) (sym (drop-IsSuffix kept-Represents.recent))
            (Numbered-drop 0 lost lost log (omega arith) h.numbered)

      after : filter (λ e. ltb since e.offset) kept.entries ≡ drop (max (suc since) lost) log
      after =
          filter-Numbered since lost kept.entries numbered
          ∙ ap (drop (suc since - lost)) (drop-IsSuffix kept-Represents.recent)
          ∙ drop-drop (suc since - lost) lost log
          ∙ ap (λ m. drop m log) furthest
        where
          furthest : lost + (suc since - lost) ≡ max (suc since) lost
          furthest = omega arith
