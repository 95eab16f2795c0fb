-- ===== src/Api/Peers.antt =====
-- api.py, `_dispatch_federation`: the authentication of a request of a peer, and the handlers of events,
-- of devices and of receipts.
use Prim.Native.String.{◌++◌}
use home_assistant_chat_comp.Prelude.{
  ℕ, pos_part, String, true, not, Option, none, some, [], ◌∷◌, str_eq, if◌then◌else◌,
}
use home_assistant_chat_comp.Text.Parts.{decimal}
use home_assistant_chat_comp.Store.Incoming.{accept_federated_event}
use home_assistant_chat_comp.Store.Receipts.{accept_federated_receipt}
use home_assistant_chat_comp.Store.KeyPackages.{claim_device_packages}
use home_assistant_chat_comp.Events.{validate_federated_event, validate_receipt}
use home_assistant_chat_comp.Wire.{
  Value, boolean, text, object, field, as_int, as_object, value_of, has_exactly, int_between,
  Octets,
}
use home_assistant_chat_comp.Wire.Json.{dict, fields_of, list_value}
use home_assistant_chat_comp.Api.{
  Request, peer_authentication_failed, replayed_request, internal_error, Auth, authenticated,
  refused, federation_peer,
}
use home_assistant_chat_comp.Api.Http.{
  Library, HttpRequest, Draws, Handler, finish, fail, crash, require, fail_if, ◌>>=◌, ◌>>◌, call,
  uncaught, Reply, reply, header_or_empty, checked, loads, caught, parse_json,
}
use home_assistant_chat_comp.Api.Client.Devices.{item_value}
use home_assistant_chat_comp.Api.Client.Messages.{status_fields}

unfoldable pub event_status : String → ℕ
event_status e =
    if str_eq e "recipient_not_found"
    then 404
    else if str_eq e "event_quota_exceeded"
    then 429
    else 400

unfoldable pub receipt_status : String → ℕ
receipt_status e = if str_eq e "event_not_found" then 404 else 400

-- what the authentication reads of a request
abbrev pub signed_request : HttpRequest → Octets → Request
signed_request req body = record {
  peer_header = header_or_empty req "X-HA-Chat-Peer";
  client_host = req.client_host;
  signed = record {
    method = req.method;
    path = req.path;
    timestamp = header_or_empty req "X-HA-Chat-Timestamp";
    nonce = header_or_empty req "X-HA-Chat-Nonce";
    signature = header_or_empty req "X-HA-Chat-Signature";
    body = body;
  };
}

unfoldable pub admitted : Auth → Handler String
admitted (authenticated peer_id) = finish peer_id
admitted (refused peer_authentication_failed) =
    fail 401 "peer_authentication_failed" "Peer authentication failed"
admitted (refused replayed_request) = fail 409 "replayed_request" "Request nonce was already used"
admitted (refused internal_error) = crash

-- a number of eight digits, and no `bool`
abbrev pub eight_digits : Value → Option ℕ
eight_digits value = elim (as_int value) [
  | none ↦ none
  | some n ↦ if int_between 10_000_000 99_999_999 n then some (pos_part n) else none
]

module _ (lib : Library) (req : HttpRequest) (draws : Draws) where
  -- `_federation_peer`
  unfoldable pub peer_of : Octets → Handler String
  peer_of body s =
      let (auth, db) =
        federation_peer lib.crypto (signed_request req body) (draws.clock 0) (draws.clock 1) s.db in
      admitted auth (record s { db = db })

module _ (lib : Library) (draws : Draws) where
  -- `POST /v1/federation/events`
  unfoldable pub post_event : String → Octets → Handler Reply
  post_event peer_id body = do
    payload ← loads event_status "Federated event was rejected" (lib.codec.loads_bytes body)
    event ←
        checked event_status "Federated event was rejected"
          (validate_federated_event lib.codec payload peer_id (draws.clock 2))
    result ← call (accept_federated_event lib.json peer_id event (draws.clock 3))
    duplicate ← caught event_status "Federated event was rejected" result
    reply (if duplicate then 200 else 201) (
        dict (
          ("event_id", text event.event_id)
          ∷ ("accepted", boolean true)
          ∷ ("duplicate", boolean duplicate)
          ∷ []))

  -- the claimant that a peer names
  abbrev pub claimant_of : String → ℕ → String
  claimant_of peer_id requester = "peer:" ++ (peer_id ++ (":" ++ decimal requester))

  -- `POST /v1/federation/devices`
  unfoldable pub post_devices : String → Octets → Handler Reply
  post_devices peer_id body = do
    payload ← parse_json lib.codec body
    fs ← require (as_object payload) 400 "invalid_identity" "Identity request is invalid"
    fail_if (not (has_exactly ("identity" ∷ "requester_number" ∷ []) fs)) 400 "invalid_identity"
        "Identity request is invalid"
    identity ←
        require (eight_digits (value_of "identity" fs)) 400 "invalid_identity"
          "Identity request is invalid"
    requester ←
        require (eight_digits (value_of "requester_number" fs)) 400 "invalid_identity"
          "Identity request is invalid"
    result ←
        call
          (claim_device_packages lib.json identity (claimant_of peer_id requester) (draws.clock 2))
    items ← uncaught result
    reply 200 (
        dict
          (("identity", text (decimal identity)) ∷ ("devices", list_value item_value items) ∷ []))

  -- `POST /v1/federation/receipts`
  unfoldable pub post_receipt : String → Octets → Handler Reply
  post_receipt peer_id body = do
    payload ← loads receipt_status "Federated receipt was rejected" (lib.codec.loads_bytes body)
    receipt ←
        checked receipt_status "Federated receipt was rejected"
          (validate_receipt payload (draws.clock 2))
    result ← call (accept_federated_receipt lib.json peer_id receipt (draws.clock 3))
    duplicate ← caught receipt_status "Federated receipt was rejected" result
    reply 200 (
        dict (
          ("receipt_id", text receipt.receipt_id)
          ∷ ("accepted", boolean true)
          ∷ ("duplicate", boolean duplicate)
          ∷ []))

  -- `GET /v1/federation/status`
  unfoldable pub get_status : String → Handler Reply
  get_status peer_id s =
      reply 200
        (object (
          field "authenticated_peer" (text peer_id)
            (fields_of (status_fields "federation" (draws.clock 2) s.db))))
        s
