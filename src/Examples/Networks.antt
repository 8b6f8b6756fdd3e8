-- ===== src/Examples/Networks.antt =====
-- The traffic of a Redis server, and an instance of the theorem on what a stream yields.
use cherenkov.Prelude.{◌<◌, ◌^◌, ℕ, String, ◌≡◌, Result, ok, err, refl, List, [], ◌∷◌, map, arith}
use cherenkov.Prelude.Suffix.{All}
use cherenkov.Protocol.{Publication, DecodeError}
use cherenkov.Protocol.IntoWire
use cherenkov.Prelude.Utf8
use cherenkov.Protocol.Codec
use cherenkov.RedisBroker.{yielded, FredValue, bytes, string}
use cherenkov.RedisBroker.Delivery.{
  Traffic, published, lost, foreign, published_text, IsTraffic, incoming, yielded-published_on,
}
use cherenkov.Examples.Protocols.{plain}

-- 32 characters, so that the encoding is text
abbrev long : String
long = "rooms.abcdefghijklmnopqrstuvwxyz"

abbrev on : String → ℕ → Publication
on channel offset = record { channel = channel; offset = offset; payload = 120 ∷ [] }

abbrev traffic : List Traffic
traffic =
    published long (on long 1)
    ∷ foreign long (bytes [])
    ∷ published "rooms.b" (on "rooms.b" 1)
    ∷ lost
    ∷ published_text long (on long 65) "A rooms.abcdefghijklmnopqrstuvwxyzx"
    ∷ foreign long (string "")
    ∷ foreign long FredValue.other
    ∷ []

unread :
    (p : Publication)
    → ◌≡◌ {A = Result (DecodeError (Unit {0})) Publication} (err (DecodeError.prost tt)) (ok p)
    → ⊥
unread p e = ground (arith, e)

traffic-IsTraffic : All (IsTraffic plain) traffic
unfolding IntoWire.publication Codec.encode_publication Codec.decode_publication Utf8.as_bytes
    Utf8.encode_char
traffic-IsTraffic =
    let first : (1 < 2 ^ 64) × ((120 < 256) × Unit {0}) = (omega arith, (omega arith, tt)) in
    let second : (65 < 2 ^ 64) × ((120 < 256) × Unit {0}) = (omega arith, (omega arith, tt)) in
    (first, (unread, (first, (tt, ((second, refl), (unread, (tt, tt)))))))

yielded-published_on_example :
    yielded plain long (map (incoming plain) traffic) ≡ on long 1 ∷ on long 65 ∷ []
yielded-published_on_example = yielded-published_on plain long traffic traffic-IsTraffic
