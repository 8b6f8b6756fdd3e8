-- ===== src/Admin.antt =====
-- crates/cherenkov-admin/src/lib.rs: the routes of the admin API over the hub's world. A handler's
-- JSON is given by the fields that are serialized; the page of the console is a constant file.
pub mod Guard
use cherenkov.Prelude.{
  ℕ, String, Bool, true, false, ◌&&◌, Option, none, some, List, [], ◌∷◌, map, length, ltb, ◌==◌,
  nat_eq, string_eq, if◌then◌else◌,
}
use cherenkov.Prelude.Format.{strip_prefix}
use cherenkov.Core.Types.{SessionClaims}
use cherenkov.Core.Session
use cherenkov.Core.Session.{
  Session, SessionId, SessionRegistry, Ref, session_channels, len, snapshot, subscribers_of,
}
use cherenkov.Core.Traits.{Platform}
use cherenkov.Core.Hub.{Hub}
use cherenkov.Core.Hub.World.{World}
use cherenkov.Core.Hub.Handlers.{kick_session}

-- The registry of `sessions` is that of the world where it is given; `Metrics` is a
-- `PrometheusHandle`, which `render` turns into text.
pub record AdminResources (P : Platform) (Metrics : Type 0) : Type 0 where
  pub sessions : Bool
  pub hub : Option (Hub P)
  pub metrics : Option Metrics
  pub auth_token : Option String

pub record SessionSummary : Type 0 where
  pub id : SessionId
  pub subject : Option String
  pub channels : ℕ

pub record SessionDetail : Type 0 where
  pub id : SessionId
  pub subject : Option String
  pub channels : List String

-- The answers: `HealthResponse`, the list of the summaries, a detail, `SubscribersResponse`,
-- `DisconnectResponse`, the text of the metrics, and a status with a text.
pub data Answer : Type 0 where
  health_response : String → ℕ → Answer
  summaries : List SessionSummary → Answer
  detail : SessionDetail → Answer
  subscribers_response : String → List SessionId → Answer
  disconnect_response : SessionId → Bool → Answer
  rendered : String → Answer
  refusal : ℕ → String → Answer

-- The routes of `api`, with the parameters in their paths
pub data Route : Type 0 where
  health_route sessions_route metrics_route : Route
  session_route disconnect_route : SessionId → Route
  subscribers_route : String → Route

-- A request has the text of its `Authorization` header, `none` where it is missing or no text.
pub record Request : Type 0 where
  pub route : Route
  pub authorization : Option String

module _ {P : Platform} {Metrics : Type 0} where
  abbrev pub new_resources : AdminResources P Metrics
  new_resources = record { sessions = true; hub = none; metrics = none; auth_token = none }

  unfoldable pub with_hub : Hub P → AdminResources P Metrics → AdminResources P Metrics
  with_hub hub r = record r { hub = some hub }

  unfoldable pub with_metrics : Metrics → AdminResources P Metrics → AdminResources P Metrics
  with_metrics metrics r = record r { metrics = some metrics }

  unfoldable pub with_auth_token : String → AdminResources P Metrics → AdminResources P Metrics
  with_auth_token token r = record r { auth_token = some token }

abbrev subject_of : Option SessionClaims → Option String
subject_of none = none
subject_of (some claims) = some claims.subject

module _ {S : Type 0} where
  unfoldable pub summary : Session S → SessionSummary
  summary s = record {
    id = s.id;
    subject = subject_of s.claims;
    channels = length (session_channels s);
  }

  unfoldable pub detail_of : SessionId → Session S → SessionDetail
  detail_of id s = record { id = id; subject = subject_of s.claims; channels = session_channels s }

-- `sort_by_key(|s| s.id)`, which is stable
unfoldable insert_by_id : SessionSummary → List SessionSummary → List SessionSummary
insert_by_id s [] = s ∷ []
insert_by_id s (t ∷ ts) =
    let rest = insert_by_id s ts in if ltb t.id s.id then t ∷ rest else s ∷ t ∷ ts

unfoldable pub sort_by_id : List SessionSummary → List SessionSummary
unfolding insert_by_id
sort_by_id [] = []
sort_by_id (s ∷ ss) = insert_by_id s (sort_by_id ss)

unfoldable pub health : SessionRegistry → Answer
health registry = health_response "ok" (len registry)

unfoldable pub list_sessions : {S : Type 0} → SessionRegistry → (Ref → Session S) → Answer
unfolding summary sort_by_id
list_sessions registry store =
    summaries (sort_by_id (map (λ r. summary (store r)) (snapshot registry)))

unfoldable pub get_session : {S : Type 0} → SessionId → SessionRegistry → (Ref → Session S) → Answer
unfolding detail_of
get_session id registry store = elim (Session.get_session id registry) [
  | none ↦ refusal 404 "session not found"
  | some r ↦ detail (detail_of id (store r))
]

unfoldable pub channel_subscribers : String → SessionRegistry → Answer
channel_subscribers channel registry =
    subscribers_response channel (subscribers_of channel registry)

module _ {P : Platform} {Metrics : Type 0} (render : Metrics → String)
    (state : AdminResources P Metrics) where
  unfoldable pub disconnect_session : SessionId → World P → Answer × World P
  disconnect_session id w = elim state.hub [
    | none ↦ (refusal 404 "disconnect endpoint not enabled (admin built without hub handle)", w)
    | some hub ↦ let (removed, w') = kick_session id w in (disconnect_response id removed, w')
  ]

  unfoldable pub metrics_endpoint : Answer
  metrics_endpoint = elim state.metrics [
    | none ↦ refusal 503 "metrics recorder not installed"
    | some handle ↦ rendered (render handle)
  ]

  -- `resources.sessions`, or a registry of its own that nothing else changes
  abbrev registry_of : World P → SessionRegistry
  registry_of w = if state.sessions then w.registry else Session.new_registry

  -- The routes of `router` behind the layer that asks for the token
  unfoldable pub run : Route → World P → Answer × World P
  unfolding health list_sessions get_session channel_subscribers disconnect_session metrics_endpoint
  run health_route w = (health (registry_of w), w)
  run sessions_route w = (list_sessions (registry_of w) w.store, w)
  run (session_route id) w = (get_session id (registry_of w) w.store, w)
  run (disconnect_route id) w = disconnect_session id w
  run (subscribers_route channel) w = (channel_subscribers channel (registry_of w), w)
  run metrics_route w = (metrics_endpoint, w)

  abbrev provided : Option String → Option String
  provided none = none
  provided (some value) = strip_prefix "Bearer " value

  abbrev pub same_token : String → Option String → Bool
  same_token expected none = false
  same_token expected (some token) = token == expected

  -- Whether `require_token` lets a request on
  unfoldable pub admits : Option String → Option String → Bool
  admits none authorization = true
  admits (some expected) authorization = same_token expected (provided authorization)

  unfoldable pub require_token : Request → World P → Answer × World P
  unfolding admits run
  require_token request w =
      if admits state.auth_token request.authorization
      then run request.route w
      else (refusal 401 "missing or invalid Authorization: Bearer <token>", w)
