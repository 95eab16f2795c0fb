-- ===== src/Store/Peers/Configure.antt =====
-- `add_peer` and `configure_peer`, with `_tls_name`. Where the format of a secret is tested, the error is
-- that of the signature.
use Prim.Native.Char.{Char, code}
use Prim.Native.String.{[], ◌∷◌, count}
use home_assistant_chat_comp.Prelude.{
  ℕ, ◌+◌, String, Bool, true, false, ◌&&◌, ◌||◌, not, Option, none, some, leb, ◌==◌, str_eq, find?,
  any_row, update_where, if◌then◌else◌,
}
use home_assistant_chat_comp.Prelude
use home_assistant_chat_comp.Text.{is_alnum, is_url_char, repeated, between}
use home_assistant_chat_comp.Text.Split.{split_on}
use home_assistant_chat_comp.Address.{IpAddress, parse_ipv4}
use home_assistant_chat_comp.Schema.{PeerRow, TransportRow}
use home_assistant_chat_comp.Exec.{
  Method, pure, raise, gets, modify, raise_if, transaction, invalid_peer_id, invalid_ipv4_address,
  invalid_peer_port, invalid_tls_server_name, tls_name_requires_tls, invalid_peer_secret,
  peer_already_exists, peer_endpoint_conflict, ◌>>=◌, ◌>>◌,
}
use home_assistant_chat_comp.Security.{Crypto, get, sign_federation_request}
use home_assistant_chat_comp.Store.Peers.{Peer, is_peer}

abbrev pub first_fits : (ℕ → Bool) → String → Bool
first_fits p [] = false
first_fits p (c ∷ s) = p (code c)

-- `[A-Za-z0-9][A-Za-z0-9_-]{2,63}`
unfoldable pub is_peer_id : String → Bool
unfolding repeated
is_peer_id peer_id = first_fits is_alnum peer_id && repeated is_url_char 3 64 peer_id

unfoldable pub last_fits : (ℕ → Bool) → String → Bool
last_fits p [] = false
last_fits p (c ∷ []) = p (code c)
last_fits p (c ∷ d ∷ s) = last_fits p (d ∷ s)

-- `[A-Za-z0-9](?:[A-Za-z0-9-]{0,61}[A-Za-z0-9])?`
unfoldable pub is_label : String → Bool
unfolding repeated last_fits
is_label s =
    repeated (λ c. is_alnum c || c == b'-') 1 63 s && first_fits is_alnum s && last_fits is_alnum s

-- labels, and an empty part after a last dot
unfoldable pub are_labels : Prelude.List String → Bool
are_labels Prelude.[] = false
are_labels (Prelude.◌∷◌ s Prelude.[]) = is_label s
are_labels (Prelude.◌∷◌ s (Prelude.◌∷◌ t ts)) =
    let rest = are_labels (Prelude.◌∷◌ t ts) in is_label s && (rest || are_end t ts)
  where
    are_end : String → Prelude.List String → Bool
    are_end t Prelude.[] = str_eq t ""
    are_end t (Prelude.◌∷◌ _ _) = false

-- `_TLS_NAME_RE`
unfoldable pub is_tls_name : String → Bool
unfolding are_labels split_on last_fits
is_tls_name s =
    (between 1 253 (count s) || count s == 254 && last_fits (λ c. c == b'.') s)
    && are_labels (split_on b'.' s)

-- `rstrip(".")`
unfoldable pub rstrip_dots : String → String
rstrip_dots [] = []
rstrip_dots (c ∷ s) =
    let rest = rstrip_dots s in if str_eq rest "" && code c == b'.' then [] else c ∷ rest

unfoldable pub lower_char : String → String → Char → Char
lower_char (u ∷ us) (l ∷ ls) c =
    let rest = lower_char us ls c in if code c == code u then l else rest
lower_char _ _ c = c

-- `lower()`, of a text that is ASCII
unfoldable pub lower : String → String
lower [] = []
lower (c ∷ s) = lower_char "ABCDEFGHIJKLMNOPQRSTUVWXYZ" "abcdefghijklmnopqrstuvwxyz" c ∷ lower s

-- `_tls_name`; no result stands for the `ValueError`
unfoldable pub tls_name : Option String → Option (Option String)
unfolding is_tls_name lower rstrip_dots
tls_name none = some none
tls_name (some value) =
    if str_eq value ""
    then some none
    else if is_tls_name value
    then some (some (lower (rstrip_dots value)))
    else none

-- what an operator asks for
pub record Settings : Type 0 where
  pub peer_id : String
  pub address : String
  pub port : ℕ
  pub secret : String
  pub use_tls : Bool
  pub tls_server_name : Option String

abbrev pub is_some : {A : Type 0} → Option A → Bool
is_some none = false
is_some (some _) = true

-- the address and the name of the peer, after the tests that both methods make
unfoldable pub check_settings :
    Crypto → (String → Option IpAddress) → Settings → Method (String × Option String)
unfolding is_peer_id tls_name
check_settings crypto ip_address s = do
  raise_if (not (is_peer_id s.peer_id)) invalid_peer_id
  elim (parse_ipv4 ip_address s.address) [
    | none ↦ raise invalid_ipv4_address
    | some address ↦ do
      raise_if (not (between 1 65535 s.port)) invalid_peer_port
      elim (tls_name s.tls_server_name) [
        | none ↦ raise invalid_tls_server_name
        | some name ↦ do
          raise_if (not s.use_tls && is_some name) tls_name_requires_tls
          raise_if
              (not (
                is_some (
                  sign_federation_request crypto s.secret get "/" "0" "AAAAAAAAAAAAAAAA"
                    Prelude.[])))
              invalid_peer_secret
          pure (address, name)
      ]
  ]

abbrev pub peer_of : Settings → String × Option String → Peer
peer_of s (address, name) = record {
  peer_id = s.peer_id;
  address = address;
  port = s.port;
  shared_secret = s.secret;
  enabled = true;
  use_tls = s.use_tls;
  tls_server_name = name;
}

abbrev pub peer_row : Peer → ℕ → PeerRow
peer_row p now = record {
  peer_id = p.peer_id;
  address = p.address;
  port = p.port;
  shared_secret = p.shared_secret;
  enabled = true;
  created_at = now;
}

abbrev pub transport_row : Peer → TransportRow
transport_row p = record {
  peer_id = p.peer_id;
  use_tls = p.use_tls;
  tls_server_name = p.tls_server_name;
}

-- `UNIQUE(address, port)`
abbrev pub is_endpoint : Peer → PeerRow → Bool
is_endpoint p q = str_eq q.address p.address && q.port == p.port

-- the primary key of `federation_peer_transport`
abbrev pub is_transport : String → TransportRow → Bool
is_transport peer_id t = str_eq t.peer_id peer_id

-- the two insertions of `add_peer`
unfoldable pub insert_peer : Peer → ℕ → Method Peer
insert_peer p now = do
  taken ← gets (λ db.
      any_row (λ q. is_peer p.peer_id q || is_endpoint p q) db.peers
      || any_row (is_transport p.peer_id) db.transports)
  raise_if taken peer_already_exists
  modify (λ db. record db {
    peers = Prelude.◌∷◌ (peer_row p now) db.peers;
    transports = Prelude.◌∷◌ (transport_row p) db.transports;
  })
  pure p

-- `secret or new_peer_secret()`, where no secret is an empty one and `drawn` is a random one
abbrev pub with_secret : String → Settings → Settings
with_secret drawn s = record s { secret = if str_eq s.secret "" then drawn else s.secret }

unfoldable pub add_peer : Crypto → (String → Option IpAddress) → String → Settings → ℕ → Method Peer
add_peer crypto ip_address drawn s now = do
  c ← check_settings crypto ip_address (with_secret drawn s)
  transaction (insert_peer (peer_of (with_secret drawn s) c) now)

-- `INSERT ... ON CONFLICT(peer_id) DO UPDATE`, of the two tables
unfoldable pub upsert_peer : Peer → ℕ → Prelude.List PeerRow → Prelude.List PeerRow
upsert_peer p now rows =
    if any_row (is_peer p.peer_id) rows
    then update_where (is_peer p.peer_id)
        (λ q. record q {
          address = p.address;
          port = p.port;
          shared_secret = p.shared_secret;
          enabled = true;
        })
        rows
    else Prelude.◌∷◌ (peer_row p now) rows

unfoldable pub upsert_transport : Peer → Prelude.List TransportRow → Prelude.List TransportRow
upsert_transport p rows =
    if any_row (is_transport p.peer_id) rows
    then update_where (is_transport p.peer_id)
        (λ t. record t { use_tls = p.use_tls; tls_server_name = p.tls_server_name }) rows
    else Prelude.◌∷◌ (transport_row p) rows

-- the statements of `configure_peer`
unfoldable pub put_peer : Peer → ℕ → Method Peer
put_peer p now = do
  conflict ← gets (λ db. any_row (λ q. is_endpoint p q && not (is_peer p.peer_id q)) db.peers)
  raise_if conflict peer_endpoint_conflict
  modify (λ db. record db {
    peers = upsert_peer p now db.peers;
    transports = upsert_transport p db.transports;
  })
  pure p

unfoldable pub configure_peer : Crypto → (String → Option IpAddress) → Settings → ℕ → Method Peer
configure_peer crypto ip_address s now = do
  c ← check_settings crypto ip_address s
  transaction (put_peer (peer_of s c) now)
