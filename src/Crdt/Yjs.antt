-- ===== src/Crdt/Yjs.antt =====
-- crates/cherenkov-channel-crdt/src/yjs.rs: the channel kind for Y.js documents.
use cherenkov.Prelude.{
  ◌+◌, ◌-◌, ◌%◌, ◌^◌, String, Option, none, some, Result, ok, err, [], Exec, ◌==◌, string_eq,
  if◌then◌else◌,
}
use cherenkov.Prelude.Dict
use cherenkov.Prelude.Dict.{Dict}
use cherenkov.Protocol.{Bytes, Publication}
use cherenkov.Core.Types.{ChannelError, ChannelCursor}
use cherenkov.Core.Traits.{ChannelKind}
use cherenkov.Crdt.{invalid_update, to_string, DocSlot, slot_of}

-- The crate `yrs`, a parameter. A refused update may leave a changed document.
pub record Yrs : Type 1 where
  pub Doc : Type 0
  pub Update : Type 0
  pub new : Doc
  pub decode_v1 : Bytes → Result String Update
  pub apply_update : Update → Doc → Result String (Unit {0}) × Doc
  pub encode_state_as_update_v1 : Doc → Bytes

module _ (Y : Yrs) where
  -- The field `docs`
  pub record YjsChannel : Type 0 where
    pub docs : Dict String (DocSlot Y.Doc)

  abbrev pub new_channel : YjsChannel
  new_channel = record { docs = Dict.empty }

  unfoldable pub snapshot : String → YjsChannel → Option Bytes
  snapshot channel w = elim (Dict.get w.docs channel) [
    | none ↦ none
    | some slot ↦ some (Y.encode_state_as_update_v1 slot.doc)
  ]

  abbrev pub rejected : String → String → ChannelError
  rejected channel reason =
      ChannelError.rejected_publication (to_string (invalid_update "yjs" channel reason))

  abbrev pub put_slot : String → DocSlot Y.Doc → YjsChannel → YjsChannel
  put_slot channel slot w = record w { docs = Dict.put w.docs channel slot }

  unfoldable pub on_subscribe : String → Exec YjsChannel ChannelError ChannelCursor
  on_subscribe channel w =
      if channel == ""
      then (err (ChannelError.invalid_channel channel), w)
      else (let slot = slot_of Y.new (Dict.get w.docs channel) in
          (ok (record { epoch = 1; offset = slot.next_offset - 1 }), put_slot channel slot w))

  unfoldable pub on_unsubscribe : String → Exec YjsChannel ChannelError (Unit {0})
  on_unsubscribe channel w = (ok tt, w)

  -- What `on_publish` does with an update under the lock of the slot; `fetch_add` wraps around.
  unfoldable pub merge : String → Bytes → Y.Update → Exec YjsChannel ChannelError Publication
  merge channel payload update w =
      let slot = slot_of Y.new (Dict.get w.docs channel) in
      let (applied, doc) = Y.apply_update update slot.doc in
      elim applied [
        | err e ↦ (err (rejected channel e), put_slot channel (record slot { doc = doc }) w)
        | ok _ ↦ (
          ok (record { channel = channel; offset = slot.next_offset; payload = payload }),
          put_slot channel (record { doc = doc; next_offset = (slot.next_offset + 1) % 2 ^ 64 }) w,
        )
      ]

  unfoldable pub on_publish : String → Bytes → Exec YjsChannel ChannelError Publication
  unfolding merge
  on_publish channel payload w =
      if channel == ""
      then (err (ChannelError.invalid_channel channel), w)
      else elim (Y.decode_v1 payload) [
        | err e ↦ (err (rejected channel e), w)
        | ok update ↦ merge channel payload update w
      ]

  -- `impl ChannelKind for YjsChannel`, with the default `replay_since` of the trait
  abbrev pub yjs_kind : ChannelKind
  yjs_kind = record {
    Handle = Unit {0};
    State = YjsChannel;
    on_subscribe = λ _. on_subscribe;
    on_unsubscribe = λ _. on_unsubscribe;
    on_publish = λ _. on_publish;
    replay_since = λ _ channel since_offset w. (ok [], w);
  }
