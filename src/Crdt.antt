-- ===== src/Crdt.antt =====
-- crates/cherenkov-channel-crdt/src/lib.rs, and what the two channel kinds of that crate share: a
-- document with an offset behind each channel.
pub mod Yjs
pub mod Automerge
pub mod Numbering
pub mod Offsets
use cherenkov.Prelude.{
  ℕ, ◌+◌, ◌-◌, ◌%◌, ◌^◌, String, Option, none, some, Result, ok, err, List, [], ◌∷◌,
}
use cherenkov.Prelude.Dict
use cherenkov.Prelude.Dict.{Dict}
use cherenkov.Prelude.Format.{concat}
use cherenkov.Protocol.{Publication}
use cherenkov.Core.Types.{ChannelError, ChannelCursor}

-- `invalid_update engine channel reason`
pub data CrdtError : Type 0 where
  invalid_update : String → String → String → CrdtError

-- The `Display` that the `#[error(…)]` attribute derives
unfoldable pub to_string : CrdtError → String
unfolding concat
to_string (invalid_update engine channel reason) =
    concat ("invalid " ∷ engine ∷ " update for channel `" ∷ channel ∷ "`: " ∷ reason ∷ [])

-- A slot's document, and the offset of the next publication
pub record DocSlot (D : Type 0) : Type 0 where
  pub doc : D
  pub next_offset : ℕ

-- `or_insert_with`
abbrev pub slot_of : {D : Type 0} → D → Option (DocSlot D) → DocSlot D
slot_of fresh none = record { doc = fresh; next_offset = 0 }
slot_of fresh (some slot) = slot

abbrev pub offset_of : {D : Type 0} → Option (DocSlot D) → ℕ
offset_of none = 0
offset_of (some slot) = slot.next_offset
