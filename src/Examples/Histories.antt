-- ===== src/Examples/Histories.antt =====
-- A channel with two publications, and instances of the theorems on histories.
use cherenkov.Prelude.{
  ℕ, ◌≤◌, ◌-◌, max, String, ◌≡◌, ◌≢◌, refl, ok, List, [], ◌∷◌, ◌++◌, map, arith, drop, filter,
  string_eq, none,
}
use cherenkov.Prelude.Dict
use cherenkov.Prelude.Suffix.{IsSuffix-refl}
use cherenkov.PubSub
use cherenkov.PubSub.{
  HistoryEntry, ChannelState, PubSubChannel, PubSubState, with_bounds, evict, on_publish,
  replay_since, publication_of, history_len, cursor,
}
use cherenkov.PubSub.History.{Timed, evict-eq-filter, is_fresh}
use cherenkov.PubSub.Replay.{
  Recorded, next_entry, retained, on_publish-Recorded, replay_since-Recorded,
}
use cherenkov.PubSub.Bounds.{Holds, history_len-on_publish, cursor_ambiguous}

abbrev kind : PubSubChannel
kind = record { epoch = 1; history_size = 2; history_ttl = 10 }

abbrev entry : ℕ → ℕ → HistoryEntry
entry at n = record { inserted_at = at; offset = n; payload = n ∷ [] }

abbrev two_entries : List HistoryEntry
two_entries = entry 1 0 ∷ entry 4 1 ∷ []

abbrev world : PubSubState
world = record {
  state = Dict.put Dict.empty "c" (record { next_offset = 2; entries = two_entries });
  clock = 5;
}

recorded : Recorded kind "c" two_entries world
unfolding Dict.get Dict.put Dict.empty
recorded = record {
  counted = refl;
  numbered = (refl, (refl, tt));
  recent = IsSuffix-refl two_entries;
}

named : ◌≢◌ {A = String} "c" ""
named e = ground (arith, (string_eq.beq_iff "c" "").1 e)

other_named : ◌≢◌ {A = String} "d" ""
other_named e = ground (arith, (string_eq.beq_iff "d" "").1 e)

on_publish-Recorded_example :
    ((on_publish kind "c" (9 ∷ []) world).0
      ≡ ok (record { channel = "c"; offset = 2; payload = 9 ∷ [] }))
    × Recorded kind "c"
        (two_entries ++ next_entry kind two_entries (9 ∷ []) world ∷ [])
        (on_publish kind "c" (9 ∷ []) world).1
    × ((other : String)
        → other ≢ "c"
        → Dict.get (on_publish kind "c" (9 ∷ []) world).1.state other ≡ Dict.get world.state other)
on_publish-Recorded_example =
    on_publish-Recorded kind "c" (9 ∷ []) two_entries world named (omega arith) recorded

replay_since-Recorded_example :
    (replay_since kind "c" 0 world).0
    ≡ ok (map (publication_of "c") (drop (max 1 (2 - retained kind "c" world)) two_entries))
replay_since-Recorded_example = replay_since-Recorded kind "c" 0 two_entries world recorded

in_order : Timed 20 two_entries
in_order = (omega arith, (omega arith, tt), (omega arith, tt, tt))

evict-eq-filter_example : evict 17 20 two_entries ≡ filter (is_fresh 17 20) two_entries
evict-eq-filter_example = evict-eq-filter 17 20 two_entries in_order

history_len-on_publish_example :
    Holds
      (with_bounds 0 10)
      "c"
      (7 ∷ [])
      world
      (on_publish (with_bounds 0 10) "c" (7 ∷ []) world).1
      (on_publish (with_bounds 0 10) "c" (7 ∷ []) world).0
    × (history_len (with_bounds 0 10) "c" (on_publish (with_bounds 0 10) "c" (7 ∷ []) world).1
        ≤ max 0 1)
history_len-on_publish_example = history_len-on_publish 0 10 "c" (7 ∷ []) world named

untouched : Dict.get world.state "d" ≡ none
unfolding Dict.get Dict.put Dict.empty
untouched = refl

cursor_ambiguous_example : cursor kind "d" (on_publish kind "d" [] world).1 ≡ cursor kind "d" world
cursor_ambiguous_example = cursor_ambiguous kind "d" [] world other_named untouched

run_test :
    ((replay_since kind "c" 0 world).0
      ≡ ok (record { channel = "c"; offset = 1; payload = 1 ∷ [] } ∷ []))
    × (evict 17 20 two_entries ≡ entry 4 1 ∷ [])
    × (history_len kind "c" (on_publish kind "c" (9 ∷ []) world).1 ≡ 2)
unfolding Dict.get Dict.put Dict.empty PubSub.replay_since PubSub.evict_expired PubSub.evict
    PubSub.history_len PubSub.on_publish PubSub.append PubSub.trim
run_test = (refl, refl, refl)
