-- ===== src/Crdt/Numbering.antt =====
-- How a channel kind numbers the publications that it accepts: what the two kinds of
-- crates/cherenkov-channel-crdt/src have in common.
use cherenkov.Prelude.{
  ℕ, zero, suc, ◌+◌, ◌%◌, ◌^◌, ◌≡◌, ◌⊎◌, refl, ap, sym, subst, ◌∙◌, String, Result, ok, err, inl,
  inr, Bool-cases, List, [], ◌∷◌, Exec, ◌==◌, string_eq, if◌then◌else◌, length, eq_of_beq,
}
use cherenkov.Protocol.{Bytes, Publication}
use cherenkov.Core.Types.{ChannelError}

module _ {S : Type 0} (on_publish : String → Bytes → Exec S ChannelError Publication)
    (next : String → S → ℕ) (channel : String) (payload : Bytes) (s : S) where
  -- The publication gets the channel's next offset, which is counted up as a `u64`; the other
  -- channels' are not.
  abbrev pub Accepts : Type 0
  Accepts =
      (t : S) × (on_publish channel payload s
        ≡ (ok (record { channel = channel; offset = next channel s; payload = payload }), t))
      × ((other : String)
          → next other t ≡ (if channel == other then (next other s + 1) % 2 ^ 64 else next other s))

  -- All channels keep their next offset.
  abbrev pub Refuses : Type 0
  Refuses =
      (e : ChannelError) × (t : S) × (on_publish channel payload s ≡ (err e, t))
      × ((other : String) → next other t ≡ next other s)

-- A channel kind that numbers what it accepts: `next` is the offset of a channel's next publication.
pub record Numbered (S : Type 0) (on_publish : String → Bytes → Exec S ChannelError Publication)
    : Type 0 where
  pub next : String → S → ℕ
  pub outcome :
      (channel : String) (payload : Bytes) (s : S)
      → Accepts on_publish next channel payload s ⊎ Refuses on_publish next channel payload s

abbrev pub recorded :
    {S : Type 0} → Result ChannelError Publication → List Publication × S → List Publication × S
recorded (ok p) (ps, s) = (p ∷ ps, s)
recorded (err e) (ps, s) = (ps, s)

-- Publications one after the other: what was accepted, and the state after
unfoldable pub publish_each :
    {S : Type 0} (on_publish : String → Bytes → Exec S ChannelError Publication)
    → List (String × Bytes)
    → S
    → List Publication × S
publish_each on_publish [] s = ([], s)
publish_each on_publish ((channel, payload) ∷ requests) s =
    let (r, t) = on_publish channel payload s in recorded r (publish_each on_publish requests t)

-- The offsets of the publications on a channel
abbrev pub offsets : String → List Publication → List ℕ
offsets channel [] = []
offsets channel (p ∷ ps) =
    let rest = offsets channel ps in if p.channel == channel then p.offset ∷ rest else rest

-- `n` numbers, counted from `from` on as a `u64`
abbrev pub count_from : ℕ → ℕ → List ℕ
count_from from zero = []
count_from from (suc n) = from ∷ count_from ((from + 1) % 2 ^ 64) n

-- The publications on the channel have consecutive offsets.
abbrev pub IsCounted : String → ℕ → List Publication → Type 0
IsCounted channel from ps = offsets channel ps ≡ count_from from (length (offsets channel ps))

abbrev pub accepted :
    {S : Type 0}
    → (String → Bytes → Exec S ChannelError Publication)
    → List (String × Bytes)
    → S
    → List Publication
accepted on_publish requests s = (publish_each on_publish requests s).0

module _ {S : Type 0} (on_publish : String → Bytes → Exec S ChannelError Publication)
    (k : Numbered S on_publish) where
  accepted_nil-IsCounted :
      (channel : String) (s : S) → IsCounted channel (k.next channel s) (accepted on_publish [] s)
  unfolding publish_each
  accepted_nil-IsCounted channel s = refl

  accepted_cons-IsCounted :
      (channel other : String) (from n : ℕ) (payload : Bytes) (ps : List Publication)
      → (other ≡ channel → n ≡ from)
      → IsCounted channel (if other == channel then (from + 1) % 2 ^ 64 else from) ps
      → IsCounted channel from (record { channel = other; offset = n; payload = payload } ∷ ps)
  accepted_cons-IsCounted channel other from n payload ps same h =
      elim (Bool-cases (other == channel)) [
        | inl e ↦ rw e (
            ap (λ m. m ∷ offsets channel ps) (same (eq_of_beq other channel e))
            ∙ ap (◌∷◌ from) (rw e at h))
        | inr e ↦ rw e (rw e at h)
      ]

  accepted-ok :
      (channel : String) (payload : Bytes) (requests : List (String × Bytes)) (s t : S)
      (p : Publication)
      → on_publish channel payload s ≡ (ok p, t)
      → accepted on_publish ((channel, payload) ∷ requests) s ≡ p ∷ accepted on_publish requests t
  unfolding publish_each
  accepted-ok channel payload requests s t p e =
      ap (λ x. (recorded x.0 (publish_each on_publish requests x.1)).0) e

  accepted-err :
      (channel : String) (payload : Bytes) (requests : List (String × Bytes)) (s t : S)
      (x : ChannelError)
      → on_publish channel payload s ≡ (err x, t)
      → accepted on_publish ((channel, payload) ∷ requests) s ≡ accepted on_publish requests t
  unfolding publish_each
  accepted-err channel payload requests s t x e =
      ap (λ y. (recorded y.0 (publish_each on_publish requests y.1)).0) e

  pub publish_each-IsCounted :
      (channel : String) (requests : List (String × Bytes)) (s : S)
      → IsCounted channel (k.next channel s) (accepted on_publish requests s)
  publish_each-IsCounted channel [] s = accepted_nil-IsCounted channel s
  publish_each-IsCounted channel ((other, payload) ∷ requests) s =
      elim (k.outcome other payload s) [
        | inl (t, e, counted) ↦
            subst (IsCounted channel (k.next channel s))
              (sym (accepted-ok other payload requests s t _ e))
              (accepted_cons-IsCounted channel other (k.next channel s) (k.next other s) payload
                (accepted on_publish requests t) (ap (λ c. k.next c s))
                (subst (λ n. IsCounted channel n (accepted on_publish requests t)) (counted channel)
                  (publish_each-IsCounted channel requests t)))
        | inr (x, t, e, same) ↦
            subst (IsCounted channel (k.next channel s))
              (sym (accepted-err other payload requests s t x e))
              (subst (λ n. IsCounted channel n (accepted on_publish requests t)) (same channel)
                (publish_each-IsCounted channel requests t))
      ]
