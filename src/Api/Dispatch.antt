-- ===== src/Api/Dispatch.antt =====
-- api.py: the dispatch of a request to its handler, and the reply that it gets (`_dispatch`,
-- `_dispatch_client`, `_dispatch_federation`, `handler_for`).
use home_assistant_chat_comp.Prelude.{
  ℕ, String, Bool, true, false, ◌&&◌, not, Option, none, some, [], ◌∷◌, str_eq, if◌then◌else◌,
}
use home_assistant_chat_comp.Text.{is_url_char, repeated}
use home_assistant_chat_comp.Text.Parts.{after_prefix}
use home_assistant_chat_comp.Protocol.{api_version}
use home_assistant_chat_comp.Security.{HttpMethod, get, post, delete}
use home_assistant_chat_comp.Schema.{Db}
use home_assistant_chat_comp.Store.Sessions.{Account}
use home_assistant_chat_comp.Wire.{Value, text, Octets}
use home_assistant_chat_comp.Wire.Json.{number, dict}
use home_assistant_chat_comp.Api.Http.{
  Library, HttpRequest, Draws, Plane, client, federation, Server, Outcome, done, api_error, crashed,
  disconnected, Handler, finish, fail, fail_if, ◌>>=◌, ◌>>◌, admit_general, Reply, reply,
  require_protocol, read_body,
}
use home_assistant_chat_comp.Api.Client.{client_account, post_session, delete_session}
use home_assistant_chat_comp.Api.Client.Devices.{post_device, post_lookup, post_packages}
use home_assistant_chat_comp.Api.Client.Messages.{
  post_message, get_messages, post_receipt, post_status, get_status, get_account,
}
use home_assistant_chat_comp.Api.Peers
use home_assistant_chat_comp.Api.Peers.{peer_of}

unfoldable pub not_found : Handler Reply
not_found = fail 404 "not_found" "Endpoint not found"

module _ (lib : Library) (req : HttpRequest) (draws : Draws) where
  -- the endpoints of a client that is logged in
  unfoldable pub client_endpoint : Octets → Account → String → HttpMethod → Handler Reply
  client_endpoint body account token post =
      if str_eq req.path "/v1/devices"
      then post_device lib draws account body
      else if str_eq req.path "/v1/devices/lookup"
      then post_lookup lib draws account body
      else if str_eq req.path "/v1/key-packages"
      then post_packages lib draws account body
      else if str_eq req.path "/v1/messages"
      then post_message lib draws account body
      else if str_eq req.path "/v1/messages/receipt"
      then post_receipt lib draws account body
      else if str_eq req.path "/v1/messages/status"
      then post_status lib draws account body
      else not_found
  client_endpoint body account token get =
      if str_eq req.path "/v1/messages"
      then get_messages lib draws account
      else if str_eq req.path "/v1/status"
      then get_status lib draws account
      else if str_eq req.path "/v1/account"
      then get_account lib draws account
      else not_found
  client_endpoint body account token delete =
      if str_eq req.path "/v1/session" then delete_session lib draws token else not_found

  -- `method == "POST" and self.path == "/v1/sessions"`
  unfoldable pub is_login : HttpMethod → Bool
  is_login post = str_eq req.path "/v1/sessions"
  is_login get = false
  is_login delete = false

  -- `_dispatch_client`
  unfoldable pub dispatch_client : Octets → Handler Reply
  dispatch_client body = if is_login req.method then post_session lib req draws body else (do
    session ← client_account lib req draws
    client_endpoint body session.0 session.1 req.method)

  -- the endpoints of a peer
  unfoldable pub peer_endpoint : Octets → String → HttpMethod → Handler Reply
  peer_endpoint body peer_id post =
      if str_eq req.path "/v1/federation/events"
      then Peers.post_event lib draws peer_id body
      else if str_eq req.path "/v1/federation/devices"
      then Peers.post_devices lib draws peer_id body
      else if str_eq req.path "/v1/federation/receipts"
      then Peers.post_receipt lib draws peer_id body
      else not_found
  peer_endpoint body peer_id get =
      if str_eq req.path "/v1/federation/status"
      then Peers.get_status lib draws peer_id
      else not_found
  peer_endpoint body peer_id delete = not_found

  -- `_dispatch_federation`
  unfoldable pub dispatch_federation : Octets → Handler Reply
  dispatch_federation body = do
    peer_id ← peer_of lib req draws body
    peer_endpoint body peer_id req.method

  -- the body of a request: none but that of a POST
  unfoldable pub body_of : HttpMethod → Handler Octets
  body_of post = read_body lib.crypto req
  body_of get = finish []
  body_of delete = finish []

  abbrev pub is_post : HttpMethod → Bool
  is_post post = true
  is_post _ = false

  abbrev pub is_get : HttpMethod → Bool
  is_get get = true
  is_get _ = false

  -- `self.headers.get("Content-Length") not in {None, "0"}`
  abbrev pub has_length : Bool
  has_length = elim (req.header "Content-Length") [ none ↦ false | some n ↦ not (str_eq n "0") ]

  abbrev pub has_encoding : Bool
  has_encoding = elim (req.header "Transfer-Encoding") [ none ↦ false | some _ ↦ true ]

  abbrev pub plane_name : Plane → String
  plane_name client = "client"
  plane_name federation = "federation"

  -- the reply of the health check
  unfoldable pub health : Plane → Handler Reply
  health plane = reply 200 (
      dict (
        ("status", text "ok")
        ∷ ("service", text (plane_name plane))
        ∷ ("api_version", number api_version)
        ∷ []))

  unfoldable pub on_plane : Plane → Octets → Handler Reply
  on_plane client body = dispatch_client body
  on_plane federation body = dispatch_federation body

  -- `if self.path.startswith("/v1/"): self._require_protocol()`
  unfoldable pub versioned : Plane → Option String → Handler (Unit {0})
  versioned plane none = finish tt
  versioned plane (some _) = require_protocol plane req

  -- behind the body: the health check, the protocol, the plane
  unfoldable pub routed : Plane → Octets → Handler Reply
  routed plane body =
      if str_eq req.path "/healthz" && is_get req.method
      then health plane
      else versioned plane (after_prefix "/v1/" req.path) >> on_plane plane body

  -- the body of the `try` of `_dispatch`
  unfoldable pub handle : Plane → Handler Reply
  handle plane = do
    allowed ← admit_general req.client_host draws.ticks
    fail_if (not allowed) 429 "rate_limited" "Too many requests"
    fail_if has_encoding 400 "unsupported_transfer_encoding" "Transfer-Encoding is unsupported"
    fail_if (not (is_post req.method) && has_length) 400 "unexpected_body"
        "This request must not contain a body"
    body ← body_of req.method
    routed plane body

-- an answer on the connection, with the id of the request
pub record Response : Type 0 where
  pub status : ℕ
  pub payload : Value
  pub request_id : String

abbrev pub error_body : String → String → Value
error_body code message =
    dict (("error", dict (("code", text code) ∷ ("message", text message) ∷ [])) ∷ [])

-- The reply to each outcome; a lost connection gets none.
unfoldable pub answer : String → Outcome Reply → Option Response
answer id (done r) = some (record { status = r.status; payload = r.payload; request_id = id })
answer id (api_error status code message) =
    some (record { status = status; payload = error_body code message; request_id = id })
answer id crashed = some (record {
  status = 500;
  payload = error_body "internal_error" "Internal server error";
  request_id = id;
})
answer id disconnected = none

-- the id of the request, or one that is drawn where the client gives none of the right form
unfoldable pub request_id : HttpRequest → String → String
request_id req drawn = elim (req.header "X-Request-ID") [
  | none ↦ drawn
  | some id ↦ if repeated is_url_char 8 64 id then id else drawn
]

-- `_dispatch`
unfoldable pub dispatch :
    Library → HttpRequest → Draws → String → Plane → Server → Option Response × Server
dispatch lib req draws drawn_id plane s =
    let (outcome, s') = handle lib req draws plane s in
    (answer (request_id req drawn_id) outcome, s')

-- `handler_for`: a plane starts with two empty limiters; a tick is a second here
unfoldable pub handler_for : Db → Server
handler_for db = record {
  db = db;
  general_limiter = record { limit = 240; window = 60; max_keys = 10_000; entries = [] };
  login_limiter = record { limit = 10; window = 300; max_keys = 10_000; entries = [] };
}
