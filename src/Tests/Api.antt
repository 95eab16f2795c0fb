-- ===== src/Tests/Api.antt =====
-- Requests to the two planes, and what follows them.
use home_assistant_chat_comp.Prelude.{
  ℕ, String, none, some, true, false, [], ◌∷◌, ◌≡◌, ◌≢◌, refl, ap, arith, str_eq, find?, any_row,
  delete_where, if◌then◌else◌,
}
use home_assistant_chat_comp.Security.{get, verify_federation_signature, sign_federation_request}
use home_assistant_chat_comp.Security.Passwords.{Kdf}
use home_assistant_chat_comp.Wire.{null, object, no_fields, loaded, Codec}
use home_assistant_chat_comp.Federation.Request.{io_error}
use home_assistant_chat_comp.Store.Nonces.{record_federation_nonce}
use home_assistant_chat_comp.Store.Peers.{get_peer}
use home_assistant_chat_comp.Store.Quota.{WithinQuota}
use home_assistant_chat_comp.Store.Sessions.{is_token, revoke_session}
use home_assistant_chat_comp.Text.{is_ascii}
use home_assistant_chat_comp.Text.Parts.{after_prefix}
use home_assistant_chat_comp.Api.{federation_peer, use_nonce}
use home_assistant_chat_comp.Api.Http.{
  Library, HttpRequest, Draws, Server, federation, Outcome, done, Reply, reply, finish, call,
  uncaught, ◌>>=◌, header_or_empty,
}
use home_assistant_chat_comp.Api.Client.{bearer, delete_session}
use home_assistant_chat_comp.Api.Client.Messages.{status_fields}
use home_assistant_chat_comp.Api.Peers.{peer_of, admitted}
use home_assistant_chat_comp.Api.Peers
use home_assistant_chat_comp.Api.Dispatch.{
  handler_for, is_login, dispatch_federation, peer_endpoint, dispatch,
}
use home_assistant_chat_comp.RateLimit.{allow, admit, drop_old, make_room, put_queue}
use home_assistant_chat_comp.Api.Http.{admit_general, client, require_protocol, fail_if}
use home_assistant_chat_comp.Api.Dispatch.{
  body_of, versioned, handle, routed, error_body, request_id,
}
use home_assistant_chat_comp.Api.History.{start, after, request}
use home_assistant_chat_comp.Api.History.Replay.{replied_once}
use home_assistant_chat_comp.Api.History.Quota.{History-WithinQuota}
use home_assistant_chat_comp.Api.History.Logout.{logged_out_refused}
use home_assistant_chat_comp.Tests.Data.{json, db}
use home_assistant_chat_comp.Tests.Events.{db-WithinQuota, to_peer, again, sent, to_peer_queued}
use home_assistant_chat_comp.Tests.Data.{message}
use home_assistant_chat_comp.Schema.{State}
use home_assistant_chat_comp.Store.Outgoing.{
  create_outgoing_event, resume, persist, advance_counter, insert_sent, enqueue_remote,
}
use home_assistant_chat_comp.Store.Outgoing.{dispatch as outgoing_dispatch}
use home_assistant_chat_comp.Store.Cleanup.{cleanup_expired, ensure_event_quota}
use home_assistant_chat_comp.Schema.Event.{comparable}
use home_assistant_chat_comp.Exec.{ok}
use home_assistant_chat_comp.Prelude.{count_where, select, update_where}
use home_assistant_chat_comp.Api.History.Counters.{replay_never_fresh}
use home_assistant_chat_comp.Tests.Federation.{crypto, ip_address}

-- functions for the run, in place of those of the libraries
abbrev pub codec : Codec
codec = record {
  loads_bytes = λ _. loaded (object no_fields);
  loads_text = λ _. loaded (object no_fields);
  dumps_value = λ _. "{}";
  dumps_bytes = λ _. 123 ∷ 125 ∷ [];
  str_value = λ _. "value";
  b64decode = λ s. some [];
  b64encode = λ _. "AAAA";
  urlsafe_b64decode = λ _. some [];
  urlsafe_b64encode = λ _. "AAAA";
  uuid = λ s. some (record { canonical = s; version = some 4 });
}

abbrev kdf : Kdf
kdf = record { scrypt = λ _ salt. salt; b64url = λ _. "AAAA" }

abbrev pub library : Library
library = record {
  json = json;
  codec = codec;
  crypto = crypto;
  kdf = kdf;
  token_digest = λ token. token;
  ip_address = ip_address;
  network = λ _ _. io_error "OSError";
}

abbrev pub draws : ℕ → Draws
draws now = record {
  clock = λ _. now;
  ticks = 5;
  token = "zyxwvutsrqponmlkjihgfedcba_ABCDEFGHIJKLMNOP";
  event_hex = "00000000000000000000000000000000";
  first_receipt = "00000000000000000000000000000001";
  second_receipt = "00000000000000000000000000000002";
  nonce = "nonce_of_the_run_";
}

abbrev pub server : Server
server = handler_for db

-- the peer asks for the status
abbrev status_request : HttpRequest
status_request = record {
  method = get;
  path = "/v1/federation/status";
  client_host = "10.0.0.2";
  header = λ name.
      if str_eq name "X-HA-Chat-Peer"
      then some "srv_b"
      else if str_eq name "X-HA-Chat-Timestamp"
      then some "1000"
      else if str_eq name "X-HA-Chat-Nonce"
      then some "abcdefghijklmnop"
      else if str_eq name "X-HA-Chat-Signature"
      then some "sig"
      else none;
  read = λ _. some [];
}

abbrev reply_of : Outcome Reply → Reply
reply_of (done r) = r
reply_of _ = record { status = 500; payload = null }

abbrev first : Outcome Reply × Server
first = dispatch_federation library status_request (draws 1100) [] server

status_shown : first ≡ (done (reply_of first.0), first.1)
unfolding dispatch_federation peer_of peer_endpoint Peers.get_status federation_peer get_peer
    use_nonce verify_federation_signature sign_federation_request record_federation_nonce find?
    any_row delete_where admitted finish reply ◌>>=◌ handler_for status_fields
status_shown = refl

-- the server after it got the request once more, through the whole dispatch
abbrev between : Server
between = (dispatch library status_request (draws 1150) "request1" federation first.1).1

replied_once_example :
    dispatch_federation library status_request (draws 1200) [] between
    ≢ (done (reply_of first.0), between)
replied_once_example =
    replied_once library (λ _. Unit) status_request [] (draws 1100) (draws 1200) (reply_of first.0)
      (reply_of first.0) server first.1 between between status_shown (omega arith)
      (after start
        (request status_request (draws 1150) "request1" federation first.1 refl (omega arith) tt))

History-WithinQuota_example :
    WithinQuota "bob" (dispatch library status_request (draws 1100) "id" federation server).1.db
unfolding handler_for
History-WithinQuota_example =
    History-WithinQuota library (λ _. Unit) (λ _. Unit) "bob"
      (after start (request status_request (draws 1100) "id" federation server refl tt tt))
      db-WithinQuota

-- a request that bears the token
abbrev token : String
token = "abcdefghijklmnopqrstuvwxyz_ABCDEFGHIJKLMNOP"

abbrev account_request : HttpRequest
account_request = record {
  method = get;
  path = "/v1/account";
  client_host = "10.0.0.9";
  header = λ name.
      if str_eq name "Authorization"
      then some "Bearer abcdefghijklmnopqrstuvwxyz_ABCDEFGHIJKLMNOP"
      else if str_eq name "X-HA-Chat-Protocol"
      then some "ha-chat-client/2"
      else none;
  read = λ _. some [];
}

abbrev out : Outcome Reply × Server
out = delete_session library (draws 1000) token server

was_logged_out : out ≡ (done (reply_of out.0), out.1)
unfolding delete_session revoke_session delete_where uncaught call reply finish ◌>>=◌ handler_for
    is_token is_ascii
was_logged_out = refl

bears_token : bearer (header_or_empty account_request "Authorization") ≡ some token
unfolding bearer after_prefix is_token
bears_token = refl

no_login : is_login library account_request (draws 1100) get ≡ false
unfolding is_login
no_login = refl

-- the token that the requests in between draw is another one
other_token : (draws 1050).token ≢ token
other_token e = let different : false ≡ true = ap (λ x. str_eq x token) e in absurd (ground arith)

-- the server after another request
abbrev later : Server
later = (dispatch library status_request (draws 1050) "request1" federation out.1).1

-- the same behind the limiter
abbrev allowed : Server
allowed = (admit_general "10.0.0.9" 5 later).1

is_admitted : admit_general "10.0.0.9" 5 later ≡ (done true, allowed)
unfolding admit_general allow admit drop_old make_room find? dispatch handle delete_session
    revoke_session delete_where uncaught call reply finish ◌>>=◌ handler_for is_token is_ascii
    fail_if body_of routed versioned after_prefix require_protocol put_queue any_row
is_admitted = refl

no_body : body_of library account_request (draws 1100) get allowed ≡ (done [], allowed)
unfolding body_of finish
no_body = refl

speaks_protocol :
    versioned library account_request
      (draws 1100)
      client
      (after_prefix "/v1/" "/v1/account")
      allowed
    ≡ (done tt, allowed)
unfolding versioned require_protocol after_prefix finish fail_if
speaks_protocol = refl

logged_out_refused_example :
    (dispatch library account_request (draws 1100) "request2" client later ≡ (
      some (record {
        status = 401;
        payload = error_body "invalid_session" "Session is invalid or expired";
        request_id = request_id account_request "request2";
      }),
      allowed,
    ))
    × (allowed.db ≡ later.db)
logged_out_refused_example =
    logged_out_refused library (λ _. Unit) token account_request [] "request2" (draws 1000)
      (draws 1100) (reply_of out.0) server out.1 later allowed was_logged_out
      (after start
        (request status_request (draws 1050) "request1" federation out.1 refl tt other_token))
      bears_token no_login is_admitted refl refl no_body refl speaks_protocol

-- the server of the message of the other tests, after another request
abbrev after_status : Server
after_status =
    (dispatch library status_request (draws 1100) "request1" federation (handler_for sent)).1

same_message : create_outgoing_event json again 1500 after_status.db ≡ (
  ok (message "evt_1", State.queued, true),
  (create_outgoing_event json again 1500 after_status.db).1,
)
unfolding create_outgoing_event resume persist advance_counter insert_sent outgoing_dispatch
    enqueue_remote ensure_event_quota cleanup_expired find? any_row count_where select delete_where
    update_where comparable dispatch handle admit_general allow admit drop_old make_room put_queue
    fail_if body_of routed versioned after_prefix require_protocol ◌>>=◌ handler_for finish
same_message = refl

replay_never_fresh_example : true ≡ true
unfolding handler_for
replay_never_fresh_example =
    replay_never_fresh library (λ _. Unit) (λ _. Unit) to_peer again 1000 1500 (message "evt_1")
      (message "evt_1") State.queued State.queued true db sent after_status.db
      (create_outgoing_event json again 1500 after_status.db).1 to_peer_queued
      (refl, refl, omega arith)
      (after start
        (request status_request (draws 1100) "request1" federation (handler_for sent) refl tt tt))
      same_message
