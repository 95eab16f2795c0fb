-- ===== src/Tests/Peers.antt =====
-- A peer that is configured anew.
use home_assistant_chat_comp.Prelude.{String, ◌≡◌, refl, some, true, any_row}
use home_assistant_chat_comp.Text.Split.{split_on}
use home_assistant_chat_comp.Address.{parse_ipv4}
use home_assistant_chat_comp.Schema.{Db}
use home_assistant_chat_comp.Exec.{ok}
use home_assistant_chat_comp.Security.{sign_federation_request}
use home_assistant_chat_comp.Store.Peers.{Peer, get_peer}
use home_assistant_chat_comp.Store.Peers.Configure.{
  Settings, is_peer_id, tls_name, is_tls_name, are_labels, is_label, last_fits, lower, lower_char,
  rstrip_dots, check_settings, insert_peer, add_peer, upsert_peer, upsert_transport, put_peer,
  configure_peer,
}
use home_assistant_chat_comp.Store.Peers.Settings.{configure_peer-get_peer}
use home_assistant_chat_comp.Tests.Data.{db}
use home_assistant_chat_comp.Tests.Federation.{crypto, ip_address}

-- what is asked for a peer, and the peer
abbrev settings : String → Settings
settings id = record {
  peer_id = id;
  address = "10.0.0.3";
  port = 8300;
  secret = "secret2";
  use_tls = true;
  tls_server_name = some "Chat.Example.";
}

abbrev peer : String → Peer
peer id = record {
  peer_id = id;
  address = "10.0.0.3";
  port = 8300;
  shared_secret = "secret2";
  enabled = true;
  use_tls = true;
  tls_server_name = some "chat.example";
}

-- the database with the peer that is there under its new address
abbrev moved_db : Db
moved_db = (configure_peer crypto ip_address (settings "srv_b") 1000 db).1

moved : configure_peer crypto ip_address (settings "srv_b") 1000 db ≡ (ok (peer "srv_b"), moved_db)
unfolding configure_peer check_settings put_peer upsert_peer upsert_transport is_peer_id tls_name
    is_tls_name are_labels is_label last_fits lower lower_char rstrip_dots split_on parse_ipv4
    sign_federation_request any_row
moved = refl

configure_peer-get_peer_example :
    ("srv_b" ≡ (settings "srv_b").peer_id)
    × (true ≡ true)
    × (get_peer "srv_b" moved_db ≡ some (peer "srv_b"))
configure_peer-get_peer_example =
    configure_peer-get_peer crypto ip_address (settings "srv_b") 1000 (peer "srv_b") db moved_db
      moved

-- the database with a second peer
abbrev joined_db : Db
joined_db = (add_peer crypto ip_address "drawn" (settings "srv_c") 1000 db).1

joined :
    add_peer crypto ip_address "drawn" (settings "srv_c") 1000 db ≡ (ok (peer "srv_c"), joined_db)
unfolding add_peer check_settings insert_peer is_peer_id tls_name is_tls_name are_labels is_label
    last_fits lower lower_char rstrip_dots split_on parse_ipv4 sign_federation_request any_row
joined = refl
