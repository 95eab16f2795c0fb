-- ===== src/Api/Client/Messages.antt =====
-- api.py, `_dispatch_client`: the handlers of messages, of the inbox, of receipts and of the status.
use Prim.Native.String.{◌++◌}
use home_assistant_chat_comp.Prelude.{
  ℕ, String, Bool, ◌||◌, not, Option, none, some, List, [], ◌∷◌, str_eq, if◌then◌else◌,
}
use home_assistant_chat_comp.Text.Parts.{decimal}
use home_assistant_chat_comp.Protocol.{
  max_inbox_page, api_version, storage_schema_version, message_protocol, client_protocol,
  federation_protocol, capabilities,
}
use home_assistant_chat_comp.Address.{UserAddress, print_address}
use home_assistant_chat_comp.Schema.{Db, State}
use home_assistant_chat_comp.Schema.Event.{Event, Receipted}
use home_assistant_chat_comp.Store.Sessions.{Account}
use home_assistant_chat_comp.Store.Peers.{get_peer, resolve_peer}
use home_assistant_chat_comp.Store.Outgoing.{Outgoing, create_outgoing_event}
use home_assistant_chat_comp.Store.Incoming.{inbox}
use home_assistant_chat_comp.Store.Receipts.{mark_receipt, delivery_status}
use home_assistant_chat_comp.Events.{
  ClientMessage, validate_client_message, build_federated_event, validate_state,
}
use home_assistant_chat_comp.Wire.{
  Value, null, boolean, text, object, field, as_text, as_object, text_of, value_of, has_exactly,
  Checked, valid, value_error, other_error, Octets,
}
use home_assistant_chat_comp.Wire.Json.{
  number, dict, list_value, event_fields, fields_of, state_name,
}
use home_assistant_chat_comp.Api.Http.{
  Library, Draws, Handler, finish, fail, crash, require, fail_if, ◌>>=◌, ◌>>◌, call, uncaught,
  Reply, reply, checked, loads, caught, parse_json, json_object,
}
use home_assistant_chat_comp.Api.Client.{public_dict}

-- the status of a `ValueError` of a message
unfoldable pub message_status : String → ℕ
message_status e =
    if str_eq e "peer_not_found" || str_eq e "recipient_not_found"
    then 404
    else if str_eq e "event_quota_exceeded"
    then 429
    else 400

-- the `value` of a state, as the API shows it
abbrev pub shown_state : State → String
shown_state State.queued = "queued"
shown_state State.accepted = "accepted"
shown_state State.delivered = "delivered"
shown_state State.read = "read"
shown_state State.failed = "failed"

-- where a message goes: an account of this server, or a peer
pub record Route : Type 0 where
  pub local_recipient : Option ℕ
  pub peer_id : Option String

abbrev pub refusal : String
refusal = "Message could not be accepted"

-- the sender of an event of the inbox, as it is shown
unfoldable pub sender_of : Db → Event → Value
sender_of db e =
    if str_eq e.origin_server_id db.server_id
    then text (decimal e.sender_number)
    else elim (get_peer e.origin_server_id db) [
      | none ↦ null
      | some peer ↦
          text (decimal e.sender_number ++ ("@" ++ (peer.address ++ (":" ++ decimal peer.port))))
    ]

-- an event of the inbox, with what is put beside its fields
abbrev pub inbox_value : Db → Event → Value
inbox_value db e =
    object
      (field "sender" (sender_of db e) (field "delivery_state" (text "accepted") (event_fields e)))

-- the state of a receipt of a client, or the error
unfoldable pub marked : Checked Receipted → Handler Receipted
marked (valid state) = finish state
marked (value_error e) = fail 400 "invalid_receipt" "Receipt fields are invalid"
marked other_error = crash

-- `_status`
unfoldable pub status_fields : String → ℕ → Db → List (String × Value)
status_fields plane now db =
    ("status", text "ok")
    ∷ ("plane", text plane)
    ∷ ("server_id", text db.server_id)
    ∷ ("api_version", number api_version)
    ∷ ("storage_schema", number storage_schema_version)
    ∷ ("message_protocol", text message_protocol)
    ∷ ("client_protocol", text client_protocol)
    ∷ ("federation_protocol", text federation_protocol)
    ∷ ("capabilities", list_value text capabilities)
    ∷ ("server_time", number now)
    ∷ []

module _ (lib : Library) (draws : Draws) where
  -- the route to a recipient on the server of a peer
  unfoldable pub remote_route : Option ℕ → String → Handler Route
  remote_route port server = do
    result ← call (resolve_peer lib.ip_address server port)
    found ← caught message_status refusal result
    peer ← require found (message_status "peer_not_found") "peer_not_found" refusal
    finish (record { local_recipient = none; peer_id = some peer.peer_id })

  -- the route to a recipient
  unfoldable pub route_of : UserAddress → Option String → Handler Route
  route_of recipient none =
      finish (record { local_recipient = some recipient.number; peer_id = none })
  route_of recipient (some server) = remote_route recipient.port server

  -- the request to the store for a message
  abbrev pub outgoing_of : Account → ClientMessage → Event → Route → Outgoing
  outgoing_of account message event route = record {
    account_id = account.id;
    device_id = message.envelope.device_id;
    counter = message.envelope.counter;
    client_event_id = message.client_event_id;
    target = print_address message.recipient;
    event = event;
    local_recipient = route.local_recipient;
    peer_id = route.peer_id;
  }

  -- a validated message is stored, as an event that was built before
  unfoldable pub store_message : Account → ClientMessage → Event → Handler (Event × State × Bool)
  store_message account message event = do
    route ← route_of message.recipient message.recipient.server
    result ←
        call
          (create_outgoing_event lib.json (outgoing_of account message event route) (draws.clock 2))
    caught message_status refusal result

  -- the event of a message, with the id of this server
  unfoldable pub event_of : Account → ClientMessage → Handler Event
  event_of account message s =
      finish
        (build_federated_event s.db.server_id account.identity message draws.event_hex
          (draws.clock 1))
        s

  -- `POST /v1/messages`
  unfoldable pub post_message : Account → Octets → Handler Reply
  post_message account body = do
    payload ← loads message_status refusal (lib.codec.loads_bytes body)
    message ←
        checked message_status refusal (validate_client_message lib.codec lib.ip_address payload)
    event ← event_of account message
    stored ← store_message account message event
    reply (if stored.2 then 200 else 202) (
        dict (
          ("event_id", text stored.0.event_id)
          ∷ ("state", text (shown_state stored.1))
          ∷ ("duplicate", boolean stored.2)
          ∷ []))

  -- the events as they are shown, with their senders
  unfoldable pub show_events : List Event → Handler Reply
  show_events events s = reply 200 (dict (("events", list_value (inbox_value s.db) events) ∷ [])) s

  -- `GET /v1/messages`
  unfoldable pub get_messages : Account → Handler Reply
  get_messages account = do
    result ← call (inbox lib.json account.id max_inbox_page (draws.clock 1))
    events ← uncaught result
    show_events events

  -- `POST /v1/messages/receipt`
  unfoldable pub post_receipt : Account → Octets → Handler Reply
  post_receipt account body = do
    payload ← parse_json lib.codec body
    fs ← require (as_object payload) 400 "invalid_receipt" "Receipt fields are invalid"
    fail_if (not (has_exactly ("event_id" ∷ "state" ∷ []) fs)) 400 "invalid_receipt"
        "Receipt fields are invalid"
    event_id ←
        require (as_text (value_of "event_id" fs)) 400 "invalid_receipt"
          "Receipt fields are invalid"
    state ← marked (validate_state "invalid_receipt" (value_of "state" fs))
    result ← call (
        mark_receipt lib.json draws.first_receipt draws.second_receipt account.id event_id state
          (draws.clock 1))
    found ← uncaught result
    fail_if (not found) 404 "event_not_found" "Message event was not found"
    reply 200 (dict (("event_id", text event_id) ∷ ("state", text (state_name state)) ∷ []))

  -- `POST /v1/messages/status`
  unfoldable pub post_status : Account → Octets → Handler Reply
  post_status account body = do
    payload ← json_object lib.codec body ("event_id" ∷ [])
    result ← call (delivery_status account.id (text_of (value_of "event_id" payload)))
    state ← uncaught result
    known ← require state 404 "event_not_found" "Message event was not found"
    reply 200 (
        dict (("event_id", value_of "event_id" payload) ∷ ("state", text (shown_state known)) ∷ []))

  -- `GET /v1/status`
  unfoldable pub get_status : Account → Handler Reply
  get_status account s =
      reply 200
        (object (
          field "account" (public_dict account)
            (fields_of (status_fields "client" (draws.clock 1) s.db))))
        s

  -- `GET /v1/account`
  unfoldable pub get_account : Account → Handler Reply
  get_account account = reply 200 (dict (("account", public_dict account) ∷ []))
