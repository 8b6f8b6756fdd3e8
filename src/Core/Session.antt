-- ===== src/Core/Session.antt =====
-- crates/cherenkov-core/src/session.rs. A `Session` is shared behind an `Arc`: the registry holds
-- its address in the hub's store of sessions. A `JoinHandle` is the number of a forwarder task.
pub mod Index
pub mod Lookup
pub mod Subscriptions
use cherenkov.Prelude.{
  ℕ, ◌+◌, ◌%◌, ◌^◌, String, Bool, true, false, not, Option, none, some, List, [], ◌∷◌, ◌++◌, ◌==◌,
  nat_eq, string_eq, if◌then◌else◌, filter, is_empty,
}
use cherenkov.Prelude.Dict
use cherenkov.Prelude.Dict.{Dict}
use cherenkov.Core.Types.{SessionClaims}

-- `SessionId(pub u64)`
abbrev pub SessionId : Type 0
SessionId = ℕ

-- An `Arc<Session>`: the address of the session.
abbrev pub Ref : Type 0
Ref = ℕ

-- A `JoinHandle<()>`.
abbrev pub JoinHandle : Type 0
JoinHandle = ℕ

-- `S` is `mpsc::Sender<ServerFrame>`; `shutdown` says whether `notify_waiters` was called.
pub record Session (S : Type 0) : Type 0 where
  pub id : SessionId
  pub outbox : S
  pub subscriptions : Dict String JoinHandle
  pub claims : Option SessionClaims
  pub shutdown : Bool

module _ {S : Type 0} where
  -- `Session::new`
  unfoldable pub new_session : SessionId → S → Session S
  new_session id outbox = record {
    id = id;
    outbox = outbox;
    subscriptions = Dict.empty;
    claims = none;
    shutdown = false;
  }

  unfoldable pub signal_shutdown : Session S → Session S
  signal_shutdown s = record s { shutdown = true }

  unfoldable pub set_claims : SessionClaims → Session S → Session S
  set_claims claims s = record s { claims = some claims }

  -- `Session::channels`
  unfoldable pub session_channels : Session S → List String
  session_channels s = Dict.keys s.subscriptions

  unfoldable pub has_subscription : String → Session S → Bool
  has_subscription channel s = elim (Dict.get s.subscriptions channel) [
    | none ↦ false
    | some task ↦ true
  ]

  -- `none` is the `Err` of an occupied entry.
  unfoldable pub insert_subscription : String → JoinHandle → Session S → Option (Session S)
  insert_subscription channel forwarder s = elim (Dict.get s.subscriptions channel) [
    | some task ↦ none
    | none ↦ some (record s { subscriptions = Dict.put s.subscriptions channel forwarder })
  ]

  -- `Session::remove_subscription`: the removed handle and the session after
  unfoldable pub take_subscription : String → Session S → Option JoinHandle × Session S
  take_subscription channel s = (
    Dict.get s.subscriptions channel,
    record s { subscriptions = Dict.remove s.subscriptions channel },
  )

  -- What `retain(|_, task| { task.abort(); false })` leaves; the caller aborts the tasks.
  unfoldable pub clear_subscriptions : Session S → Session S
  clear_subscriptions s = record s { subscriptions = Dict.empty }

-- The reverse index `channels` lists the local subscribers of a channel.
pub record SessionRegistry : Type 0 where
  pub next_id : ℕ
  pub sessions : Dict SessionId Ref
  pub channels : Dict String (List SessionId)

abbrev pub new_registry : SessionRegistry
new_registry = record { next_id = 0; sessions = Dict.empty; channels = Dict.empty }

-- `fetch_add` on an `AtomicU64` wraps around.
unfoldable pub allocate_id : SessionRegistry → SessionId × SessionRegistry
allocate_id r = (r.next_id, record r { next_id = (r.next_id + 1) % 2 ^ 64 })

unfoldable pub register : SessionId → Ref → SessionRegistry → SessionRegistry
register id session r = record r { sessions = Dict.put r.sessions id session }

unfoldable pub get_session : SessionId → SessionRegistry → Option Ref
get_session id r = Dict.get r.sessions id

abbrev pub without_id : SessionId → List SessionId → List SessionId
without_id id = filter (λ sid. not (sid == id))

-- An entry of the reverse index without `id`, dropped where nothing is left.
abbrev pub scrub : SessionId → List SessionId → Option (List SessionId)
scrub id ids = if is_empty (without_id id ids) then none else some (without_id id ids)

unfoldable pub deregister : SessionId → SessionRegistry → Option Ref × SessionRegistry
deregister id r = elim (Dict.get r.sessions id) [
  | none ↦ (none, r)
  | some session ↦ (
    some session,
    record r {
      sessions = Dict.remove r.sessions id;
      channels = Dict.retain (λ _ ids. scrub id ids) r.channels;
    },
  )
]

unfoldable pub len : SessionRegistry → ℕ
len r = Dict.size r.sessions

unfoldable pub registry_empty : SessionRegistry → Bool
registry_empty r = Dict.size r.sessions == 0

unfoldable pub snapshot : SessionRegistry → List Ref
snapshot r = Dict.values r.sessions

unfoldable pub ids : SessionRegistry → List SessionId
ids r = Dict.keys r.sessions

abbrev pub or_default : Option (List SessionId) → List SessionId
or_default none = []
or_default (some ids) = ids

unfoldable pub subscribers_of : String → SessionRegistry → List SessionId
subscribers_of channel r = or_default (Dict.get r.channels channel)

unfoldable pub add_subscription : SessionId → String → SessionRegistry → SessionRegistry
add_subscription id channel r = record r {
  channels = Dict.put r.channels channel (or_default (Dict.get r.channels channel) ++ id ∷ []);
}

-- The entry is changed under `get_mut`, and removed afterwards if that left it empty.
unfoldable pub remove_subscription : SessionId → String → SessionRegistry → SessionRegistry
remove_subscription id channel r = elim (Dict.get r.channels channel) [
  | none ↦ r
  | some ids ↦
      let changed = Dict.put r.channels channel (without_id id ids) in
      record r {
        channels = if is_empty (without_id id ids) then Dict.remove changed channel else changed;
      }
]
