-- ===== src/Examples/Brokers.antt =====
-- A broker with a subscriber, and instances of the theorems on delivery.
use cherenkov.Prelude.{
  ◌<◌, String, ◌≡◌, ◌≢◌, refl, ok, [], ◌∷◌, ◌++◌, arith, length, string_eq, some, none, ◌==◌,
  nat_eq, if◌then◌else◌,
}
use cherenkov.Prelude.Dict
use cherenkov.Protocol.{Publication}
use cherenkov.MemoryBroker
use cherenkov.MemoryBroker.{
  MemoryBroker, Stream, with_capacity, subscribe, publish, sender_for, drop_stream,
}
use cherenkov.MemoryBroker.Delivery.{
  Listens, received, stream_of, subscribe-Listens, publish-received, publish-topics,
}
use cherenkov.MemoryBroker.Race.{subscribe_around, subscribe_around-deaf}
use cherenkov.Examples.Toy.{tapes, no_tape}

abbrev start : MemoryBroker tapes
start = with_capacity 4 no_tape

abbrev news : Publication
news = record { channel = "t"; offset = 0; payload = 1 ∷ [] }

abbrev stream : Stream tapes
stream = stream_of "t" start

abbrev listening : MemoryBroker tapes
listening = (subscribe "t" start).1

listens : Listens "t" stream listening
listens = (subscribe-Listens "t" start).1

room : length (received stream listening) < tapes.capacity (listening.channels stream.channel)
unfolding MemoryBroker.subscribe MemoryBroker.sender_for MemoryBroker.subscribe_on
    MemoryBroker.with_capacity Dict.get Dict.put Dict.empty
room = omega arith

publish-received_example :
    ((publish "t" news listening).0 ≡ ok tt)
    × (received stream (publish "t" news listening).1 ≡ received stream listening ++ news ∷ [])
    × (Dict.get (publish "t" news listening).1.topics "t" ≡ some stream.channel)
publish-received_example = publish-received "t" news stream listening listens room

publish-topics_example :
    (Dict.get (publish "t" news listening).1.topics "t" ≡ (
      if tapes.receiver_count (listening.channels stream.channel) == 0
      then none
      else some stream.channel))
    × ((other : String)
        → other ≢ "t"
        → Dict.get (publish "t" news listening).1.topics other ≡ Dict.get listening.topics other)
publish-topics_example = publish-topics "t" news listening stream.channel listens.current

idle : tapes.receiver_count ((sender_for "t" start).1.channels (sender_for "t" start).0) ≡ 0
unfolding MemoryBroker.sender_for MemoryBroker.with_capacity Dict.get Dict.put Dict.empty
idle = refl

subscribe_around-deaf_example :
    (¬ Listens "t" (subscribe_around "t" news start).0 (subscribe_around "t" news start).1)
    × ((q : Publication)
        → publish "t" q (subscribe_around "t" news start).1
          ≡ (ok tt, (subscribe_around "t" news start).1))
subscribe_around-deaf_example = subscribe_around-deaf "t" news start idle

run_test :
    (received stream (publish "t" news listening).1 ≡ news ∷ [])
    × (Dict.get (publish "t" news (drop_stream stream listening)).1.topics "t" ≡ none)
unfolding MemoryBroker.subscribe MemoryBroker.sender_for MemoryBroker.subscribe_on
    MemoryBroker.publish MemoryBroker.publish_on MemoryBroker.reap MemoryBroker.drop_stream
    MemoryBroker.with_capacity Dict.get Dict.put Dict.empty Dict.remove
run_test = (refl, refl)
