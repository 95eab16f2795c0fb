-- ===== src/Tests/Sending.antt =====
-- A signed request and its response, and a configuration.
use home_assistant_chat_comp.Prelude.{
  ℕ, pos, ◌≤◌, String, none, some, true, false, ◌&&◌, ◌==◌, [], ◌∷◌, ◌≡◌, ◌⊎◌, refl, arith, str_eq,
  find?, any_row, delete_where, length, if◌then◌else◌,
}
use home_assistant_chat_comp.Schema.{Db}
use home_assistant_chat_comp.Text.{is_ascii}
use home_assistant_chat_comp.Text.Parts.{decimal, digits_onto}
use home_assistant_chat_comp.Exec.{ok}
use home_assistant_chat_comp.Address.{parse_ipv4, ipv4}
use home_assistant_chat_comp.Config.{
  System, ServiceConfig, validated_service, validated_listener, check_file,
}
use home_assistant_chat_comp.Config.Laws.{IsSafe, validated_service-IsSafe}
use home_assistant_chat_comp.Security.{Crypto, sign_federation_request, is_nonce_text}
use home_assistant_chat_comp.Store.Nonces.{record_federation_nonce}
use home_assistant_chat_comp.Store.Peers.{Peer, get_peer, join_transport}
use home_assistant_chat_comp.Wire.{object, no_fields, Octets, valid, loaded}
use home_assistant_chat_comp.Federation.Request.{
  Posted, answered, response, posted, endpoint, max_response, signed_headers, signed_json_request,
  read_exchange, remote_result,
}
use home_assistant_chat_comp.Federation.Replies.{signed_json_request-answered}
use home_assistant_chat_comp.Federation.Signed.{received, posted_is_authenticated}
use home_assistant_chat_comp.Api.Http.{Library, done, read_body}
use home_assistant_chat_comp.Api.Peers.{peer_of}
use home_assistant_chat_comp.Tests.Data.{db, remote}
use home_assistant_chat_comp.Tests.Federation.{crypto}
use home_assistant_chat_comp.Api.Dispatch.{handler_for}
use home_assistant_chat_comp.Tests.Api.{codec, library, draws, server}

abbrev own_crypto : Crypto
own_crypto = record crypto {
  int =
      λ s. if str_eq s "1000" then some (pos 1000) else if str_eq s "2" then some (pos 2) else none;
}

-- the network answers with an empty object
abbrev own_library : Library
own_library = record library { crypto = own_crypto; network = λ _ _. response 200 (123 ∷ 125 ∷ []) }

-- the peer as the other server knows it
abbrev peer : Peer
peer = record {
  peer_id = "srv_a";
  address = "10.0.0.1";
  port = 8211;
  shared_secret = "secret";
  enabled = true;
  use_tls = false;
  tls_server_name = none;
}

abbrev nonce : String
nonce = "abcdefghijklmnop"

abbrev sent : Posted
sent = record {
  path = "/v1/federation/events";
  headers = signed_headers "srv_b" (123 ∷ 125 ∷ []) "1000" nonce "sig";
  body = 123 ∷ 125 ∷ [];
}

is_sent :
    posted codec own_crypto own_library.network "srv_b" peer "/v1/federation/events"
      (object no_fields)
      1000
      nonce
    ≡ some sent
unfolding posted signed_headers sign_federation_request decimal digits_onto
is_sent = refl

time_read : own_crypto.int (decimal 1000) ≡ some (pos 1000)
unfolding decimal digits_onto
time_read = refl

size_read : own_crypto.int (decimal 2) ≡ some (pos 2)
unfolding decimal digits_onto
size_read = refl

signature_ascii : is_ascii "sig" ≡ true
unfolding is_ascii
signature_ascii = refl

nonce_ok : is_nonce_text nonce ≡ true
unfolding is_nonce_text
nonce_ok = refl

sender_known : get_peer "srv_b" db ≡ some (join_transport [] remote)
unfolding get_peer find?
sender_known = refl

abbrev recorded_db : Db
recorded_db = (record_federation_nonce "srv_b" nonce (pos 1000) 1100 db).1

nonce_unused : record_federation_nonce "srv_b" nonce (pos 1000) 1100 db ≡ (ok true, recorded_db)
unfolding record_federation_nonce any_row delete_where
nonce_unused = refl

posted_is_authenticated_example :
    (read_body own_crypto (received sent "10.0.0.2") server ≡ (done sent.body, server))
    × (peer_of own_library (received sent "10.0.0.2") (draws 1100) sent.body server
        ≡ (done "srv_b", record server { db = recorded_db }))
unfolding handler_for find?
posted_is_authenticated_example =
    posted_is_authenticated own_library "srv_b" peer "/v1/federation/events" (object no_fields) 1000
      nonce sent "10.0.0.2" (draws 1100) server (join_transport [] remote) recorded_db is_sent
      time_read size_read (λ _ _. signature_ascii) (omega arith) (omega arith) nonce_ok
      (omega arith, omega arith) sender_known refl refl refl nonce_unused

is_answered :
    signed_json_request codec own_crypto own_library.network "srv_b" peer "/v1/federation/events"
      (object no_fields)
      1000
      nonce
    ≡ answered no_fields
unfolding signed_json_request posted signed_headers sign_federation_request decimal digits_onto
    read_exchange remote_result
is_answered = refl

signed_json_request-answered_example :
    (p : Posted) × (status : ℕ) × (content : Octets) × (posted codec own_crypto own_library.network
        "srv_b" peer "/v1/federation/events"
        (object no_fields)
        1000
        nonce
      ≡ some p)
    × (own_library.network (endpoint peer) p ≡ response status content)
    × ((status ≡ 200) ⊎ (status ≡ 201))
    × (length content ≤ max_response)
    × (codec.loads_bytes content ≡ loaded (object no_fields))
signed_json_request-answered_example =
    signed_json_request-answered codec own_crypto own_library.network "srv_b" peer
      "/v1/federation/events" (object no_fields) 1000 nonce no_fields is_answered

-- two listeners, one on a loopback address and one with TLS
abbrev system : System
system = record {
  is_file = λ _. true;
  ip_address = λ t. some (ipv4 t);
  is_loopback = λ host. str_eq host "127.0.0.1";
}

abbrev config : ServiceConfig
config = record {
  database = "/data/chat.db";
  client = record {
    host = "127.0.0.1";
    port = 8210;
    tls_cert = none;
    tls_key = none;
    allow_insecure_http = false;
  };
  federation = record {
    host = "10.0.0.2";
    port = 8211;
    tls_cert = some "cert.pem";
    tls_key = some "key.pem";
    allow_insecure_http = false;
  };
}

config_passes : validated_service system false config ≡ valid config
unfolding validated_service validated_listener check_file parse_ipv4
config_passes = refl

validated_service-IsSafe_example :
    IsSafe system false config.client
    × IsSafe system false config.federation
    × (config.database ≡ config.database)
    × (str_eq config.database "" ≡ false)
    × (((str_eq config.client.host config.federation.host
            && config.client.port == config.federation.port)
          ≡ false)
        ⊎ (config.client.port ≡ 0))
validated_service-IsSafe_example = validated_service-IsSafe system false config config config_passes
