-- ===== src/Crdt/Automerge.antt =====
-- crates/cherenkov-channel-crdt/src/automerge.rs: the channel kind for Automerge documents.
use cherenkov.Prelude.{
  ℕ, ◌+◌, ◌-◌, ◌%◌, ◌^◌, String, Option, none, some, Result, ok, err, [], Exec, ◌==◌, string_eq,
  if◌then◌else◌,
}
use cherenkov.Prelude.Dict
use cherenkov.Prelude.Dict.{Dict}
use cherenkov.Protocol.{Bytes, Publication}
use cherenkov.Core.Types.{ChannelError, ChannelCursor}
use cherenkov.Core.Traits.{ChannelKind}
use cherenkov.Crdt.{invalid_update, to_string, DocSlot, slot_of}

-- The crate `automerge`, a parameter. `save` takes the document mutably, and a refused load may leave
-- a changed document.
pub record AutoCommit : Type 1 where
  pub Doc : Type 0
  pub new : Doc
  pub load_incremental : Bytes → Doc → Result String ℕ × Doc
  pub save : Doc → Bytes × Doc

module _ (C : AutoCommit) where
  -- The field `docs`
  pub record AutomergeChannel : Type 0 where
    pub docs : Dict String (DocSlot C.Doc)

  abbrev pub new_channel : AutomergeChannel
  new_channel = record { docs = Dict.empty }

  abbrev pub put_slot : String → DocSlot C.Doc → AutomergeChannel → AutomergeChannel
  put_slot channel slot w = record w { docs = Dict.put w.docs channel slot }

  unfoldable pub snapshot : String → AutomergeChannel → Option Bytes × AutomergeChannel
  snapshot channel w = elim (Dict.get w.docs channel) [
    | none ↦ (none, w)
    | some slot ↦
        let (bytes, doc) = C.save slot.doc in
        (some bytes, put_slot channel (record slot { doc = doc }) w)
  ]

  abbrev pub rejected : String → String → ChannelError
  rejected channel reason =
      ChannelError.rejected_publication (to_string (invalid_update "automerge" channel reason))

  unfoldable pub on_subscribe : String → Exec AutomergeChannel ChannelError ChannelCursor
  on_subscribe channel w =
      if channel == ""
      then (err (ChannelError.invalid_channel channel), w)
      else (let slot = slot_of C.new (Dict.get w.docs channel) in
          (ok (record { epoch = 1; offset = slot.next_offset - 1 }), put_slot channel slot w))

  unfoldable pub on_unsubscribe : String → Exec AutomergeChannel ChannelError (Unit {0})
  on_unsubscribe channel w = (ok tt, w)

  -- `on_publish` under the lock of the channel's slot; `fetch_add` wraps around.
  unfoldable pub load : String → Bytes → Exec AutomergeChannel ChannelError Publication
  load channel payload w =
      let slot = slot_of C.new (Dict.get w.docs channel) in
      let (loaded, doc) = C.load_incremental payload slot.doc in
      elim loaded [
        | err e ↦ (err (rejected channel e), put_slot channel (record slot { doc = doc }) w)
        | ok _ ↦ (
          ok (record { channel = channel; offset = slot.next_offset; payload = payload }),
          put_slot channel (record { doc = doc; next_offset = (slot.next_offset + 1) % 2 ^ 64 }) w,
        )
      ]

  unfoldable pub on_publish : String → Bytes → Exec AutomergeChannel ChannelError Publication
  unfolding load
  on_publish channel payload w =
      if channel == ""
      then (err (ChannelError.invalid_channel channel), w)
      else load channel payload w

  -- `impl ChannelKind for AutomergeChannel`, with the default `replay_since` of the trait
  abbrev pub automerge_kind : ChannelKind
  automerge_kind = record {
    Handle = Unit {0};
    State = AutomergeChannel;
    on_subscribe = λ _. on_subscribe;
    on_unsubscribe = λ _. on_unsubscribe;
    on_publish = λ _. on_publish;
    replay_since = λ _ channel since_offset w. (ok [], w);
  }
