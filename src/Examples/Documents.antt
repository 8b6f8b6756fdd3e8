-- ===== src/Examples/Documents.antt =====
-- Documents that are the list of the updates they took, and instances of the theorems on the kinds
-- for documents.
use cherenkov.Prelude.{ℕ, String, ◌≡◌, refl, Result, ok, err, List, [], ◌∷◌, ◌++◌, string_eq}
use cherenkov.Prelude.Dict
use cherenkov.Prelude.Format
use cherenkov.Protocol.{Bytes}
use cherenkov.Crdt
use cherenkov.Crdt.Yjs
use cherenkov.Crdt.Yjs.{Yrs, new_channel}
use cherenkov.Crdt.Automerge
use cherenkov.Crdt.Automerge.{AutoCommit}
use cherenkov.Crdt.Numbering
use cherenkov.Crdt.Numbering.{IsCounted, accepted, offsets}
use cherenkov.Crdt.Offsets.{publish_each-yjs_numbered, publish_each-automerge_numbered}

-- No update is empty.
abbrev nonempty : Bytes → Result String Bytes
nonempty [] = err "empty"
nonempty (b ∷ bytes) = ok (b ∷ bytes)

abbrev pub updates : Yrs
updates = record {
  Doc = List Bytes;
  Update = Bytes;
  new = [];
  decode_v1 = nonempty;
  apply_update = λ update doc. (ok tt, doc ++ update ∷ []);
  encode_state_as_update_v1 = λ doc. [];
}

abbrev load : Bytes → List Bytes → Result String ℕ × List Bytes
load [] doc = (err "empty", doc)
load (b ∷ bytes) doc = (ok 1, doc ++ (b ∷ bytes) ∷ [])

abbrev pub loads : AutoCommit
loads = record { Doc = List Bytes; new = []; load_incremental = load; save = λ doc. ([], doc) }

-- Two updates of one document, with a refused one between them, and one of another document
abbrev requests : List (String × Bytes)
requests = ("a", 1 ∷ []) ∷ ("a", []) ∷ ("b", 2 ∷ []) ∷ ("a", 3 ∷ []) ∷ []

publish_each-yjs_numbered_example :
    IsCounted "a" 0 (accepted (Yjs.on_publish updates) requests (new_channel updates))
unfolding Dict.get Dict.empty
publish_each-yjs_numbered_example =
    publish_each-yjs_numbered updates "a" requests (new_channel updates)

publish_each-automerge_numbered_example :
    IsCounted "a" 0 (accepted (Automerge.on_publish loads) requests (Automerge.new_channel loads))
unfolding Dict.get Dict.empty
publish_each-automerge_numbered_example =
    publish_each-automerge_numbered loads "a" requests (Automerge.new_channel loads)

run_test :
    (offsets "a" (accepted (Yjs.on_publish updates) requests (new_channel updates)) ≡ 0 ∷ 1 ∷ [])
    × (offsets "b" (accepted (Automerge.on_publish loads) requests (Automerge.new_channel loads))
        ≡ 0 ∷ [])
unfolding Yjs.on_publish Yjs.merge Automerge.on_publish Automerge.load Numbering.publish_each
    Dict.get Dict.put Dict.empty Crdt.to_string Format.concat
run_test = (refl, refl)
