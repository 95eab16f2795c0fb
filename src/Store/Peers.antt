-- ===== src/Store/Peers.antt =====
-- The peers as the server reads them: `get_peer`, `resolve_peer` and `disable_all_peers`. The
-- parser of addresses is a parameter (see Address).
pub mod Resolve
pub mod Configure
pub mod Settings
use home_assistant_chat_comp.Prelude.{
  ℕ, String, Bool, true, false, ◌&&◌, Option, none, some, List, [], ◌∷◌, ◌==◌, str_eq, find?,
  select, update_where, if◌then◌else◌,
}
use home_assistant_chat_comp.Address.{IpAddress, parse_ipv4}
use home_assistant_chat_comp.Schema.{Db, PeerRow, TransportRow}
use home_assistant_chat_comp.Exec.{Method, pure, raise, gets, modify, invalid_ipv4_address, ◌>>=◌}

-- the dataclass `Peer`
pub record Peer : Type 0 where
  pub peer_id : String
  pub address : String
  pub port : ℕ
  pub shared_secret : String
  pub enabled : Bool
  pub use_tls : Bool
  pub tls_server_name : Option String

-- `LEFT JOIN federation_peer_transport`, with TLS where there is no row
abbrev pub join_transport : List TransportRow → PeerRow → Peer
join_transport rows p = elim (find? (λ (t : TransportRow). str_eq t.peer_id p.peer_id) rows) [
  | none ↦ record {
    peer_id = p.peer_id;
    address = p.address;
    port = p.port;
    shared_secret = p.shared_secret;
    enabled = p.enabled;
    use_tls = true;
    tls_server_name = none;
  }
  | some t ↦ record {
    peer_id = p.peer_id;
    address = p.address;
    port = p.port;
    shared_secret = p.shared_secret;
    enabled = p.enabled;
    use_tls = t.use_tls;
    tls_server_name = t.tls_server_name;
  }
]

abbrev pub is_peer : String → PeerRow → Bool
is_peer peer_id p = str_eq p.peer_id peer_id

unfoldable pub get_peer : String → Db → Option Peer
get_peer peer_id db = elim (find? (is_peer peer_id) db.peers) [
  | none ↦ none
  | some p ↦ some (join_transport db.transports p)
]

unfoldable pub disable_all_peers : Method (Unit {0})
disable_all_peers = modify (λ db. record db {
  peers = update_where (λ (p : PeerRow). true) (λ p. record p { enabled = false }) db.peers;
})

-- `p.address = ? AND p.enabled = 1`
abbrev pub is_at : String → PeerRow → Bool
is_at address p = str_eq p.address address && p.enabled

-- the row of a list that has one row
abbrev pub only_row : List PeerRow → Option PeerRow
only_row (p ∷ []) = some p
only_row _ = none

-- the row that the address names: without a port it has to be the only enabled peer there
unfoldable pub endpoint_row : String → Option ℕ → List PeerRow → Option PeerRow
endpoint_row address none rows = only_row (select (is_at address) rows)
endpoint_row address (some port) rows = find? (λ p. is_at address p && p.port == port) rows

unfoldable pub resolve_peer : (String → Option IpAddress) → String → Option ℕ → Method (Option Peer)
unfolding endpoint_row
resolve_peer ip_address address port = elim (parse_ipv4 ip_address address) [
  | none ↦ raise invalid_ipv4_address
  | some canonical ↦ do
    row ← gets (λ db. endpoint_row canonical port db.peers)
    rows ← gets (λ db. db.transports)
    pure (elim row [ none ↦ none | some p ↦ some (join_transport rows p) ])
]
