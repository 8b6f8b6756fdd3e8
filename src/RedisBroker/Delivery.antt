-- ===== src/RedisBroker/Delivery.antt =====
-- What a subscriber of crates/cherenkov-broker-redis/src/lib.rs gets of what is published.
use cherenkov.Prelude.{
  ℕ, ◌≢◌, ◌∙◌, Result-cases, String, ◌≡◌, refl, ap, none, some, ok, err, List, [], ◌∷◌, map, ◌==◌,
  string_eq, if◌then◌else◌, Bool-cases, inl, inr,
}
use cherenkov.Prelude.Suffix.{All}
use cherenkov.Prelude.Utf8.{as_bytes}
use cherenkov.Protocol.{Bytes, Publication}
use cherenkov.Protocol.IntoWire
use cherenkov.Protocol.Codec.{Prost, PublicationInRange, encode_publication, decode_publication}
use cherenkov.Protocol.Codec.RoundTrip.{decode_publication-encode_publication}
use cherenkov.RedisBroker.{
  FredValue, bytes, string, Incoming, message, lagged, accept, yielded, decode_value,
}

-- What the server delivers. A value comes in as text where the client takes its bytes for UTF-8.
pub data Traffic : Type 0 where
  published : String → Publication → Traffic
  published_text : String → Publication → String → Traffic
  lost : Traffic
  foreign : String → FredValue → Traffic

-- The publications on a topic
abbrev pub published_on : String → List Traffic → List Publication
published_on topic [] = []
published_on topic (published other p ∷ rest) =
    let others = published_on topic rest in if other == topic then p ∷ others else others
published_on topic (published_text other p text ∷ rest) =
    let others = published_on topic rest in if other == topic then p ∷ others else others
published_on topic (lost ∷ rest) = published_on topic rest
published_on topic (foreign other value ∷ rest) = published_on topic rest

module _ {E : Type 0} (prost : Prost E) where
  -- No publication can be read from the bytes.
  abbrev pub Undecodable : Bytes → Type 0
  Undecodable b = (p : Publication) → decode_publication prost b ≢ ok p

  abbrev pub IsForeign : FredValue → Type 0
  IsForeign (bytes b) = Undecodable b
  IsForeign (string s) = Undecodable (as_bytes s)
  IsForeign FredValue.other = Unit

  abbrev pub IsTraffic : Traffic → Type 0
  IsTraffic (published topic p) = PublicationInRange (IntoWire.publication p)
  IsTraffic (published_text topic p text) =
      PublicationInRange (IntoWire.publication p) × (as_bytes text ≡ encode_publication prost p)
  IsTraffic lost = Unit
  IsTraffic (foreign topic value) = IsForeign value

  -- The messages as they come in: `publish` encodes a publication.
  abbrev pub incoming : Traffic → Incoming
  incoming (published topic p) = message topic (bytes (encode_publication prost p))
  incoming (published_text topic p text) = message topic (string text)
  incoming lost = lagged
  incoming (foreign topic value) = message topic value

  decode_value-none : (b : Bytes) → Undecodable b → decode_value prost (bytes b) ≡ none
  decode_value-none b h = elim (Result-cases (decode_publication prost b)) [
    | inl (p, e) ↦ absurd (h p e)
    | inr (x, e) ↦ ap (λ r. elim r [ ok q ↦ some q | err _ ↦ none ]) e
  ]

  decode_value-foreign : (value : FredValue) → IsForeign value → decode_value prost value ≡ none
  decode_value-foreign (bytes b) h = decode_value-none b h
  decode_value-foreign (string s) h = decode_value-none (as_bytes s) h
  decode_value-foreign FredValue.other h = refl

  decode_value-ok :
      (b : List ℕ) (p : Publication)
      → decode_publication prost b ≡ ok p
      → decode_value prost (bytes b) ≡ some p
  decode_value-ok b p e = ap (λ r. elim r [ ok q ↦ some q | err _ ↦ none ]) e

  accept-published :
      (topic other : String) (p : Publication)
      → PublicationInRange (IntoWire.publication p)
      → accept prost topic (incoming (published other p))
        ≡ (if other == topic then some p else none)
  unfolding accept
  accept-published topic other p h =
      ap (λ o. if other == topic then o else none)
        (decode_value-ok (encode_publication prost p) p
          (decode_publication-encode_publication prost p h))

  accept-published_text :
      (topic other : String) (p : Publication) (text : String)
      → PublicationInRange (IntoWire.publication p)
      → as_bytes text ≡ encode_publication prost p
      → accept prost topic (incoming (published_text other p text))
        ≡ (if other == topic then some p else none)
  unfolding accept
  accept-published_text topic other p text h e =
      ap (λ o. if other == topic then o else none)
        (decode_value-ok (as_bytes text) p
          (ap (decode_publication prost) e ∙ decode_publication-encode_publication prost p h))

  accept-foreign :
      (topic other : String) (value : FredValue)
      → IsForeign value
      → accept prost topic (incoming (foreign other value)) ≡ none
  unfolding accept
  accept-foreign topic other value h = elim (Bool-cases (other == topic)) [
    | inl e ↦ rw e (decode_value-foreign value h)
    | inr e ↦ rw e refl
  ]

  yielded-cons :
      (topic other : String) (m : Incoming) (p : Publication) (ms : List Incoming)
      → accept prost topic m ≡ (if other == topic then some p else none)
      → yielded prost topic (m ∷ ms)
        ≡ (if other == topic then p ∷ yielded prost topic ms else yielded prost topic ms)
  unfolding yielded
  yielded-cons topic other m p ms e = elim (Bool-cases (other == topic)) [
    | inl k ↦ rw (e, yielded) (rw k refl)
    | inr k ↦ rw (e, yielded) (rw k refl)
  ]

  -- The stream of a topic yields the publications that were published on it and were not lost, in
  -- their order, and no others. They come in as bytes or as text of the same bytes, and their fields
  -- are in the ranges of the wire format. Between them there may be publications on other topics,
  -- notices of lost messages, and values of any form, on any topic, from which no publication can be
  -- read.
  pub yielded-published_on :
      (topic : String) (traffic : List Traffic)
      → All IsTraffic traffic
      → yielded prost topic (map incoming traffic) ≡ published_on topic traffic
  unfolding yielded
  yielded-published_on topic [] h = refl
  yielded-published_on topic (published other p ∷ rest) h =
      yielded-cons topic other (incoming (published other p)) p (map incoming rest)
        (accept-published topic other p h.0)
      ∙ ap (λ l. if other == topic then p ∷ l else l) (yielded-published_on topic rest h.1)
  yielded-published_on topic (published_text other p text ∷ rest) h =
      yielded-cons topic other (incoming (published_text other p text)) p (map incoming rest)
        (accept-published_text topic other p text h.0.0 h.0.1)
      ∙ ap (λ l. if other == topic then p ∷ l else l) (yielded-published_on topic rest h.1)
  yielded-published_on topic (lost ∷ rest) h = yielded-published_on topic rest h.1
  yielded-published_on topic (foreign other value ∷ rest) h =
      rw (accept-foreign topic other value h.0, yielded) (yielded-published_on topic rest h.1)
