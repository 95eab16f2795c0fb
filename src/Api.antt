-- ===== src/Api.antt =====
-- api.py: how a handler of the federation plane authenticates the peer (`_federation_peer`).
pub mod Http
pub mod Calls
pub mod History
pub mod Client
pub mod Peers
pub mod Dispatch
pub mod Replay
pub mod Disabled
use home_assistant_chat_comp.Prelude.{
  ℕ, ℤ, String, Bool, true, false, not, ◌||◌, Option, none, some, List, [], ◌∷◌, str_eq,
  if◌then◌else◌,
}
use home_assistant_chat_comp.Schema.{Db}
use home_assistant_chat_comp.Exec.{ok, err}
use home_assistant_chat_comp.Security.{
  Crypto, Signed, verified, rejected, type_error, Verified, verify_federation_signature,
}
use home_assistant_chat_comp.Store.Peers.{Peer, get_peer}
use home_assistant_chat_comp.Store.Nonces.{record_federation_nonce}

-- a request of the federation plane: the peer's header, the address of the connection, what is signed
pub record Request : Type 0 where
  pub peer_header : String
  pub client_host : String
  pub signed : Signed

-- the errors that the client sees; `internal_error` answers any other exception
pub data ApiError : Type 0 where
  peer_authentication_failed replayed_request internal_error : ApiError

abbrev pub status : ApiError → ℕ
status peer_authentication_failed = 401
status replayed_request = 409
status internal_error = 500

pub data Auth : Type 0 where
  authenticated : String → Auth
  refused : ApiError → Auth

-- the use of the nonce, after the signature was verified
unfoldable pub use_nonce : Peer → Request → Verified → ℕ → Db → Auth × Db
use_nonce peer req (rejected type_error) now db = (refused internal_error, db)
use_nonce peer req (rejected e) now db = (refused peer_authentication_failed, db)
use_nonce peer req (verified t) now db =
    let (fresh, db') = record_federation_nonce peer.peer_id req.signed.nonce t now db in
    elim fresh [
      | ok true ↦ (authenticated peer.peer_id, db')
      | ok false ↦ (refused replayed_request, db')
      | err e ↦ (refused internal_error, db')
    ]

-- The clock is read twice: for the timestamp (`checked`), and when the nonce is recorded (`now`).
unfoldable pub federation_peer : Crypto → Request → ℕ → ℕ → Db → Auth × Db
unfolding use_nonce
federation_peer crypto req checked now db = elim (get_peer req.peer_header db) [
  | none ↦ (refused peer_authentication_failed, db)
  | some peer ↦
      if not peer.enabled || not (str_eq req.client_host peer.address)
      then (refused peer_authentication_failed, db)
      else use_nonce peer req
          (verify_federation_signature crypto peer.shared_secret req.signed checked) now db
]
