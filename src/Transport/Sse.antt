-- ===== src/Transport/Sse.antt =====
-- crates/cherenkov-transport-sse/src/lib.rs: the handlers of the two routes, each taken as one step
-- over the hub's world, and the stream that `subscribe_handler` answers with. The outbox `tx` of a
-- session is the sender that `mpsc::channel` returned. Logs are left out.
pub mod Query
pub mod Closing
pub mod Answers
pub mod Serving
use cherenkov.Prelude.{
  ℕ, suc, ◌+◌, ◌%◌, ◌^◌, String, Bool, Option, none, some, Result, ok, err, List, [], ◌∷◌, Exec,
  map_err, pure, ◌>>=◌, ◌>>◌, if◌then◌else◌, is_empty,
}
use cherenkov.Prelude.Format.{concat, decimal}
use cherenkov.Protocol.{Bytes, Publication, ServerFrame}
use cherenkov.Core.Types.{HubError}
use cherenkov.Core.Session.{SessionId}
use cherenkov.Core.Traits.{Platform}
use cherenkov.Core.Hub.{Hub}
use cherenkov.Core.Hub.World.{World}
use cherenkov.Core.Hub.Handlers.{
  open_session, handle_connect, handle_subscribe, handle_publish, requires_connect, close_session,
}
use cherenkov.Transport.Sse.Query.{channels_from_raw_query, token_from_headers}

-- What the handlers call outside the repository: `Display` of errors, which `thiserror` derives, the
-- text of a `serde_json` string value, and base64.
pub record Texts : Type 0 where
  pub hub_error : HubError → String
  pub json_string : String → String
  pub base64 : Bytes → String

pub record Response : Type 0 where
  pub status : ℕ
  pub body : String

-- `axum::response::sse::Event`
pub record Event : Type 0 where
  pub event : String
  pub payload : Option String

-- The status that `into_response` gives an error
unfoldable pub status_of : HubError → ℕ
status_of (HubError.auth e) = 401
status_of (HubError.acl e) = 403
status_of (HubError.not_connected id) = 403
status_of (HubError.schema e) = 422
status_of _ = 500

-- The fields of a JSON object, each with its key
abbrev pub number_field : String → ℕ → List String → List String
number_field key n rest = "\"" ∷ key ∷ "\":" ∷ decimal n ∷ rest

module _ (texts : Texts) where
  unfoldable pub into_response : HubError → Response
  unfolding status_of
  into_response e = record { status = status_of e; body = texts.hub_error e }

  abbrev pub text_field : String → String → List String → List String
  text_field key s rest = "\"" ∷ key ∷ "\":" ∷ texts.json_string s ∷ rest

  abbrev event_of : String → List String → Event
  event_of name parts = record { event = name; payload = some (concat parts) }

  unfoldable pub frame_to_event : ServerFrame → Event
  frame_to_event (ServerFrame.publication p) = event_of "publication" (
      "{"
      ∷ text_field "channel" p.channel (
          ","
          ∷ number_field "offset" p.offset
              ("," ∷ text_field "data" (texts.base64 p.payload) ("}" ∷ []))))
  frame_to_event (ServerFrame.error e) = event_of "error" (
      "{"
      ∷ number_field "request_id" e.request_id
          ("," ∷ number_field "code" e.code ("," ∷ text_field "message" e.message ("}" ∷ []))))
  frame_to_event (ServerFrame.subscribe_ok s) = event_of "subscribe-ok" (
      "{"
      ∷ number_field "request_id" s.request_id ("," ∷ text_field "channel" s.channel ("}" ∷ [])))
  frame_to_event (ServerFrame.unsubscribe_ok u) = event_of "unsubscribe-ok" (
      "{"
      ∷ number_field "request_id" u.request_id ("," ∷ text_field "channel" u.channel ("}" ∷ [])))
  frame_to_event (ServerFrame.connect_ok c) = event_of "connect-ok" (
      "{"
      ∷ number_field "request_id" c.request_id ("," ∷ text_field "subject" c.subject ("}" ∷ [])))

abbrev pub missing_channel : Response
missing_channel = record { status = 400; body = "missing `channel` query parameter" }

abbrev pub missing_token : Response
missing_token = record { status = 401; body = "Authorization header required" }

-- What the body of a published message can be: read in full, or refused by `to_bytes`, over 16 MiB
pub data Body : Type 0 where
  read : Bytes → Body
  unreadable : String → Body

-- Why a stream comes to its last item: the outbox is at its end, or the shutdown was notified.
pub data Ending : Type 0 where
  outbox_ended shut_down : Ending

-- What a stream waits for, turn by turn. A client that goes away drops the stream at any turn; what
-- that does to the outbox is not modelled.
pub data StreamEvent : Type 0 where
  frame : ServerFrame → StreamEvent
  last : Ending → StreamEvent

module _ {P : Platform} (texts : Texts) (hub : Hub P) where
  -- `close_session`, and the answer
  abbrev pub closing : {A : Type 0} → SessionId → Response → Exec (World P) Response A
  closing id response w = (err response, close_session id w)

  -- `if let Err(err) = … { close_session(…); return Err(into_response(&err)) }`
  unfoldable pub or_close :
      {A : Type 0} → SessionId → Exec (World P) HubError A → Exec (World P) Response A
  unfolding into_response
  or_close id m w =
      let (r, w') = m w in
      elim r [ ok a ↦ (ok a, w') | err e ↦ closing id (into_response texts e) w' ]

  -- Both handlers connect with the token, or go on without one where the hub allows it.
  unfoldable pub admit : SessionId → Option String → Exec (World P) Response (Unit {0})
  unfolding or_close
  admit id (some token) w = (or_close id (handle_connect hub id 0 token) >>= λ _. pure tt) w
  admit id none w = if requires_connect hub then closing id missing_token w else (ok tt, w)

  -- The loop over the channels, whose numbers are the ids of the requests
  unfoldable pub subscribe_each : SessionId → ℕ → List String → Exec (World P) Response (Unit {0})
  unfolding or_close
  subscribe_each id i [] = pure tt
  subscribe_each id i (channel ∷ channels) = do
    or_close id (handle_subscribe hub id i channel 0)
    subscribe_each id (suc i) channels

  -- `subscribe_handler` once the session is open
  unfoldable pub subscribe_all :
      SessionId → Option String → List String → Exec (World P) Response (Unit {0})
  unfolding admit subscribe_each
  subscribe_all id token channels = do admit id token; subscribe_each id 0 channels

  -- `ok` is the answer with the session's stream.
  unfoldable pub subscribe_handler :
      P.mpsc.Sender → Option Bytes → Option String → Exec (World P) Response SessionId
  unfolding subscribe_all
  subscribe_handler tx query authorization w =
      let channels = channels_from_raw_query query in
      let ((id, session), w') = open_session hub tx w in
      if is_empty channels
      then (err missing_channel, w)
      else (subscribe_all id (token_from_headers authorization) channels >>= λ _. pure id) w'

  -- The stream of a session, polled to the end of the list or to its last item: the events that the
  -- client gets, and the world after
  unfoldable pub run_stream : SessionId → List StreamEvent → World P → List Event × World P
  unfolding frame_to_event
  run_stream id [] w = ([], w)
  run_stream id (frame f ∷ events) w =
      let (sent, w') = run_stream id events w in (frame_to_event texts f ∷ sent, w')
  run_stream id (last why ∷ events) w =
      (record { event = "close"; payload = none } ∷ [], close_session id w)

  -- What `publish_handler` does once the session may go on: it closes the session either way.
  unfoldable pub publish_admitted : SessionId → String → Bytes → Exec (World P) Response Publication
  unfolding into_response
  publish_admitted id channel payload w =
      let (r, w') = handle_publish hub id channel payload w in
      (map_err (into_response texts) r, close_session id w')

  unfoldable pub publish_answer : Result Response Publication → Response
  publish_answer (err response) = response
  publish_answer (ok p) = record {
    status = 200;
    body = concat (
        "{"
        ∷ text_field texts "channel" p.channel ("," ∷ number_field "offset" p.offset ("}\n" ∷ [])));
  }

  -- `publish_handler` once the session is open
  unfoldable pub publish_all :
      SessionId → Option String → String → Bytes → Exec (World P) Response Publication
  unfolding admit publish_admitted
  publish_all id token channel payload = do admit id token; publish_admitted id channel payload

  unfoldable pub publish_handler :
      P.mpsc.Sender → String → Option String → Body → World P → Response × World P
  unfolding publish_all publish_answer
  publish_handler tx channel authorization (unreadable e) w =
      (record { status = 400; body = concat ("body: " ∷ e ∷ []) }, w)
  publish_handler tx channel authorization (read payload) w =
      let ((id, session), w') = open_session hub tx w in
      let (r, w'') = publish_all id (token_from_headers authorization) channel payload w' in
      (publish_answer r, w'')
