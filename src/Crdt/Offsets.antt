-- ===== src/Crdt/Offsets.antt =====
-- The offsets that the two kinds of crates/cherenkov-channel-crdt/src (yjs.rs and automerge.rs) give to
-- publications.
use cherenkov.Prelude.{
  ℕ, ◌+◌, ◌%◌, ◌^◌, ◌≡◌, ◌⊎◌, refl, String, arith, inl, inr, Result-cases, Bool-cases, List, ◌==◌,
  string_eq, if◌then◌else◌, eq_iff,
}
use cherenkov.Prelude.Dict
use cherenkov.Prelude.Dict.{get-put}
use cherenkov.Protocol.{Bytes}
use cherenkov.Core.Types.{ChannelError}
use cherenkov.Crdt.{DocSlot, slot_of, offset_of}
use cherenkov.Crdt.Yjs
use cherenkov.Crdt.Yjs.{Yrs, YjsChannel, put_slot}
use cherenkov.Crdt.Automerge
use cherenkov.Crdt.Automerge.{AutoCommit, AutomergeChannel}
use cherenkov.Crdt.Numbering.{
  Accepts, Refuses, Numbered, IsCounted, accepted, publish_each-IsCounted,
}

-- The next offset behind each channel
abbrev next_offset : {D : Type 0} → Dict.Dict String (DocSlot D) → String → ℕ
next_offset docs channel = offset_of (Dict.get docs channel)

abbrev refused_slot : {D : Type 0} → D → DocSlot D → DocSlot D
refused_slot doc slot = record slot { doc = doc }

abbrev accepted_slot : {D : Type 0} → D → DocSlot D → DocSlot D
accepted_slot doc slot = record { doc = doc; next_offset = (slot.next_offset + 1) % 2 ^ 64 }

module _ {D : Type 0} (docs : Dict.Dict String (DocSlot D)) (fresh doc : D) (channel : String) where
  abbrev slot : DocSlot D
  slot = slot_of fresh (Dict.get docs channel)

  slot_offset : slot.next_offset ≡ next_offset docs channel
  slot_offset = ground arith

  refused_next :
      (other : String)
      → next_offset (Dict.put docs channel (refused_slot doc slot)) other ≡ next_offset docs other
  refused_next other =
      ground (
        arith,
        get-put docs channel other (refused_slot doc slot),
        slot_offset,
        eq_iff channel other,
      )

  accepted_next :
      (other : String)
      → next_offset (Dict.put docs channel (accepted_slot doc slot)) other ≡ (
          if channel == other
          then (next_offset docs other + 1) % 2 ^ 64
          else next_offset docs other)
  accepted_next other = ground (
    arith,
    get-put docs channel other (accepted_slot doc slot),
    slot_offset,
    eq_iff channel other,
  )

module _ (Y : Yrs) where
  abbrev pub yjs_next : String → YjsChannel Y → ℕ
  yjs_next channel w = next_offset w.docs channel

  module _ (channel : String) (payload : Bytes) (w : YjsChannel Y) where
    merge_outcome :
        (update : Y.Update)
        → Accepts (λ c d. Yjs.merge Y c d update) yjs_next channel payload w
          ⊎ Refuses (λ c d. Yjs.merge Y c d update) yjs_next channel payload w
    unfolding Yjs.merge
    merge_outcome update =
        let (applied, doc) = Y.apply_update update (slot w.docs Y.new Y.new channel).doc in
        elim (Result-cases applied) [
          | inl (_, e) ↦ inl (
            Yjs.put_slot Y channel (accepted_slot doc (slot w.docs Y.new Y.new channel)) w,
            rw (e, Yjs.merge, slot_offset w.docs Y.new Y.new channel) refl,
            accepted_next w.docs Y.new doc channel,
          )
          | inr (x, e) ↦ inr (
            Yjs.rejected Y channel x,
            Yjs.put_slot Y channel (refused_slot doc (slot w.docs Y.new Y.new channel)) w,
            rw (e, Yjs.merge) refl,
            refused_next w.docs Y.new doc channel,
          )
        ]

    yjs_outcome :
        Accepts (Yjs.on_publish Y) yjs_next channel payload w
        ⊎ Refuses (Yjs.on_publish Y) yjs_next channel payload w
    unfolding Yjs.on_publish
    yjs_outcome = elim (Bool-cases (channel == "")) [
      | inl e ↦
          inr (ChannelError.invalid_channel channel, w, rw (e, Yjs.on_publish) refl, λ _. refl)
      | inr e ↦ elim (Result-cases (Y.decode_v1 payload)) [
        | inr (x, k) ↦ inr (Yjs.rejected Y channel x, w, rw (e, k, Yjs.on_publish) refl, λ _. refl)
        | inl (update, k) ↦ elim (merge_outcome update) [
          | inl (t, same, counted) ↦ inl (t, rw (e, k, Yjs.on_publish) same, counted)
          | inr (x, t, same, kept) ↦ inr (x, t, rw (e, k, Yjs.on_publish) same, kept)
        ]
      ]
    ]

  abbrev yjs_numbered : Numbered (YjsChannel Y) (Yjs.on_publish Y)
  yjs_numbered = record { next = yjs_next; outcome = yjs_outcome }

module _ (C : AutoCommit) where
  abbrev pub automerge_next : String → AutomergeChannel C → ℕ
  automerge_next channel w = next_offset w.docs channel

  module _ (channel : String) (payload : Bytes) (w : AutomergeChannel C) where
    load_outcome :
        Accepts (Automerge.load C) automerge_next channel payload w
        ⊎ Refuses (Automerge.load C) automerge_next channel payload w
    unfolding Automerge.load
    load_outcome =
        let (loaded, doc) = C.load_incremental payload (slot w.docs C.new C.new channel).doc in
        elim (Result-cases loaded) [
          | inl (_, e) ↦ inl (
            Automerge.put_slot C channel (accepted_slot doc (slot w.docs C.new C.new channel)) w,
            rw (e, Automerge.load, slot_offset w.docs C.new C.new channel) refl,
            accepted_next w.docs C.new doc channel,
          )
          | inr (x, e) ↦ inr (
            Automerge.rejected C channel x,
            Automerge.put_slot C channel (refused_slot doc (slot w.docs C.new C.new channel)) w,
            rw (e, Automerge.load) refl,
            refused_next w.docs C.new doc channel,
          )
        ]

    automerge_outcome :
        Accepts (Automerge.on_publish C) automerge_next channel payload w
        ⊎ Refuses (Automerge.on_publish C) automerge_next channel payload w
    unfolding Automerge.on_publish
    automerge_outcome = elim (Bool-cases (channel == "")) [
      | inl e ↦
          inr
            (ChannelError.invalid_channel channel, w, rw (e, Automerge.on_publish) refl, λ _. refl)
      | inr e ↦ elim load_outcome [
        | inl (t, same, counted) ↦ inl (t, rw (e, Automerge.on_publish) same, counted)
        | inr (x, t, same, kept) ↦ inr (x, t, rw (e, Automerge.on_publish) same, kept)
      ]
    ]

  abbrev automerge_numbered : Numbered (AutomergeChannel C) (Automerge.on_publish C)
  automerge_numbered = record { next = automerge_next; outcome = automerge_outcome }

-- Whatever is published to documents, in whatever order and whether the engine takes it or not: the
-- publications that the Y.js kind accepts on a channel have consecutive offsets as `u64`s, from the
-- channel's next one on.
pub publish_each-yjs_numbered :
    (Y : Yrs) (channel : String) (requests : List (String × Bytes)) (w : YjsChannel Y)
    → IsCounted channel (yjs_next Y channel w) (accepted (Yjs.on_publish Y) requests w)
publish_each-yjs_numbered Y = publish_each-IsCounted (Yjs.on_publish Y) (yjs_numbered Y)

-- Whatever is published to documents, in whatever order and whether the engine takes it or not: the
-- publications that the Automerge kind accepts on a channel have consecutive offsets as `u64`s, from
-- the channel's next one on.
pub publish_each-automerge_numbered :
    (C : AutoCommit) (channel : String) (requests : List (String × Bytes)) (w : AutomergeChannel C)
    → IsCounted channel (automerge_next C channel w) (accepted (Automerge.on_publish C) requests w)
publish_each-automerge_numbered C =
    publish_each-IsCounted (Automerge.on_publish C) (automerge_numbered C)
