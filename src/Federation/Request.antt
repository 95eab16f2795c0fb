-- ===== src/Federation/Request.antt =====
-- federation.py: the signed requests to a peer (`signed_json_request`, `post_event`, `fetch_devices`).
-- What the network does is a parameter: the error of the connection, or the status and the body of
-- the response. The clock and the nonce are arguments.
use Prim.Native.String.{◌++◌}
use home_assistant_chat_comp.Prelude.{
  ℕ, suc, String, Bool, true, false, ◌||◌, not, Option, none, some, List, [], ◌∷◌, ltb, ◌==◌,
  str_eq, take, length, if◌then◌else◌,
}
use home_assistant_chat_comp.Text.Parts.{decimal}
use home_assistant_chat_comp.Protocol.{federation_protocol, protocol_header}
use home_assistant_chat_comp.Schema.Event.{Event}
use home_assistant_chat_comp.Security.{Crypto, post, sign_federation_request}
use home_assistant_chat_comp.Store.Peers.{Peer}
use home_assistant_chat_comp.Wire.{
  Value, text, object, Items, nil, item, Fields, no_fields, field, as_array, as_object, value_of,
  has_key, Loaded, loaded, decode_error, number_error, load_error, Octets, Codec,
}
use home_assistant_chat_comp.Wire.Json.{number, event_value}

-- how the connection is made: a pinned name verified at the address, TLS to the address, or neither
pub data Transport : Type 0 where
  pinned : String → Transport
  tls plain : Transport

pub record Endpoint : Type 0 where
  pub address : String
  pub port : ℕ
  pub transport : Transport

-- An empty name is no name.
unfoldable pub endpoint : Peer → Endpoint
endpoint peer = record {
  address = peer.address;
  port = peer.port;
  transport =
      if peer.use_tls
      then elim peer.tls_server_name [
        | none ↦ tls
        | some name ↦ if str_eq name "" then tls else pinned name
      ]
      else plain;
}

pub record Header : Type 0 where
  pub name : String
  pub content : String

-- a request as it is sent; its method is POST
pub record Posted : Type 0 where
  pub path : String
  pub headers : List Header
  pub body : Octets

pub data Exchange : Type 0 where
  -- an `OSError` or `HTTPException`, by the name of its type
  io_error : String → Exchange
  response : ℕ → Octets → Exchange

abbrev pub Network : Type 0
Network = Endpoint → Posted → Exchange

-- What a request returns or raises; `raised` is any other exception than `FederationDeliveryError`.
pub data Answer : Type 0 where
  answered : Fields → Answer
  delivery_error : String → Answer
  raised : Answer

abbrev pub header : String → String → Header
header name content = record { name = name; content = content }

abbrev pub max_response : ℕ
max_response = 262_144

-- the headers, with the signature
unfoldable pub signed_headers : String → Octets → String → String → String → List Header
signed_headers local_server_id body timestamp nonce signature =
    header "Content-Type" "application/json"
    ∷ header "Content-Length" (decimal (length body))
    ∷ header protocol_header federation_protocol
    ∷ header "X-HA-Chat-Peer" local_server_id
    ∷ header "X-HA-Chat-Timestamp" timestamp
    ∷ header "X-HA-Chat-Nonce" nonce
    ∷ header "X-HA-Chat-Signature" signature
    ∷ []

abbrev pub devices_payload : ℕ → ℕ → Value
devices_payload identity requester =
    object
      (field "identity" (number identity) (field "requester_number" (number requester) no_fields))

-- the objects of the array, if there is no other value in it
unfoldable pub all_objects : Items → Bool
all_objects nil = true
all_objects (item (object fs) xs) = all_objects xs
all_objects (item v xs) = false

unfoldable pub count_items : Items → ℕ
count_items nil = 0
count_items (item v xs) = suc (count_items xs)

-- the check of the devices; a key that is missing is `None`, which is no list
unfoldable pub read_devices : Fields → Option Items
unfolding all_objects count_items
read_devices fs = elim (as_array (value_of "devices" fs)) [
  | none ↦ none
  | some devices ↦
      if ltb 32 (count_items devices) || not (all_objects devices) then none else some devices
]

-- what `fetch_devices` returns or raises
pub data Fetched : Type 0 where
  fetched : Items → Fetched
  fetch_error : String → Fetched
  fetch_raised : Fetched

module _ (codec : Codec) where
  abbrev pub shown : Value → String
  shown (text s) = s
  shown v = codec.str_value v

  -- `.get("error", {}).get("code", "remote_error")`; what is no object has no `get`
  unfoldable pub error_code : Value → String
  error_code body = elim (as_object body) [
    | none ↦ "remote_error"
    | some fs ↦
        if has_key "error" fs
        then (elim (as_object (value_of "error" fs)) [
          | none ↦ "remote_error"
          | some error ↦
              if has_key "code" error then shown (value_of "code" error) else "remote_error"
        ])
        else "remote_error"
  ]

  -- a response that is no success
  unfoldable pub remote_error : ℕ → Loaded → Answer
  unfolding error_code
  remote_error status (loaded body) =
      delivery_error ("remote_" ++ (decimal status ++ (":" ++ error_code body)))
  remote_error status decode_error =
      delivery_error ("remote_" ++ (decimal status ++ ":remote_error"))
  remote_error status (number_error e) = raised
  remote_error status load_error = raised

  unfoldable pub remote_result : Loaded → Answer
  remote_result (loaded body) = elim (as_object body) [
    | none ↦ delivery_error "invalid_remote_response"
    | some fs ↦ answered fs
  ]
  remote_result decode_error = delivery_error "invalid_remote_response"
  remote_result (number_error e) = raised
  remote_result load_error = raised

  -- from the response to the result
  unfoldable pub read_exchange : Exchange → Answer
  unfolding remote_error remote_result
  read_exchange (io_error name) = delivery_error name
  read_exchange (response status content) =
      let body = take (suc max_response) content in
      if ltb max_response (length body)
      then delivery_error "response_too_large"
      else if not (status == 200 || status == 201)
      then remote_error status (codec.loads_bytes body)
      else remote_result (codec.loads_bytes body)

  module _ (crypto : Crypto) (network : Network) (local_server_id : String) where
    -- the request that is sent, if the secret of the peer makes a signature
    unfoldable pub posted : Peer → String → Value → ℕ → String → Option Posted
    unfolding signed_headers
    posted peer path payload now nonce =
        let body = codec.dumps_bytes payload in
        elim (sign_federation_request crypto peer.shared_secret post path (decimal now) nonce
          body) [
            | none ↦ none
            | some signature ↦ some (record {
              path = path;
              headers = signed_headers local_server_id body (decimal now) nonce signature;
              body = body;
            })
          ]

    unfoldable pub signed_json_request : Peer → String → Value → ℕ → String → Answer
    unfolding posted endpoint read_exchange
    signed_json_request peer path payload now nonce = elim (posted peer path payload now nonce) [
      | none ↦ raised
      | some request ↦ read_exchange (network (endpoint peer) request)
    ]

    -- `post_event`
    unfoldable pub post_event : Peer → Event → ℕ → String → Answer
    unfolding signed_json_request
    post_event peer event now nonce =
        signed_json_request peer "/v1/federation/events" (event_value event) now nonce

    -- `fetch_devices`
    unfoldable pub fetch_devices : Peer → ℕ → ℕ → ℕ → String → Fetched
    unfolding signed_json_request read_devices
    fetch_devices peer identity requester now nonce =
        elim (signed_json_request peer "/v1/federation/devices" (devices_payload identity requester)
          now nonce) [
            | delivery_error e ↦ fetch_error e
            | raised ↦ fetch_raised
            | answered fs ↦ elim (read_devices fs) [
              | none ↦ fetch_error "invalid_device_response"
              | some devices ↦ fetched devices
            ]
          ]
