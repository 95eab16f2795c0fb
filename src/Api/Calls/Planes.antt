-- ===== src/Api/Calls/Planes.antt =====
-- A request to either plane uses the store through its calls alone.
use mathlib.Core.Path.{subst}
use home_assistant_chat_comp.Prelude.{
  ℕ, ℤ, String, Bool, true, false, Option, none, some, ◌≡◌, sym, arith, if◌then◌else◌, Option-cases,
  inl, inr,
}
use home_assistant_chat_comp.Schema.{Db}
use home_assistant_chat_comp.Security.{
  Crypto, HttpMethod, get, post, delete, Verified, verified, rejected, type_error,
  invalid_federation_timestamp, stale_federation_request, invalid_federation_nonce,
  invalid_federation_signature,
}
use home_assistant_chat_comp.Store.Peers.{Peer, get_peer}
use home_assistant_chat_comp.Store.Sessions.{Account}
use home_assistant_chat_comp.Store.Nonces.{record_federation_nonce}
use home_assistant_chat_comp.Wire.{Octets}
use home_assistant_chat_comp.Api.{
  Request, Auth, authenticated, refused, peer_authentication_failed, replayed_request,
  internal_error, use_nonce, federation_peer,
}
use home_assistant_chat_comp.Api.Http.{
  Library, HttpRequest, Draws, Plane, client, federation, Server, finish, fail, crash,
  require_protocol,
}
use home_assistant_chat_comp.Api.Peers.{signed_request, admitted, peer_of}
use home_assistant_chat_comp.Api.Dispatch.{
  not_found, client_endpoint, dispatch_client, peer_endpoint, dispatch_federation, body_of, health,
  on_plane, versioned, routed, handle, dispatch,
}
use home_assistant_chat_comp.Api.Calls.{Runs, here, next, Runs-trans, recorded, Keeps}
use home_assistant_chat_comp.Api.Calls.Rules.{parts, if-Keeps, fail-Keeps}
use home_assistant_chat_comp.Api.Calls.Endpoints.{
  client_account-Keeps, post_session-Keeps, delete_session-Keeps, post_device-Keeps,
  post_lookup-Keeps, post_packages-Keeps, post_message-Keeps, get_messages-Keeps,
  post_receipt-Keeps, post_status-Keeps, get_status-Keeps, get_account-Keeps, peer_event-Keeps,
  peer_devices-Keeps, peer_receipt-Keeps, peer_status-Keeps,
}

ruleset endpoints = (
  client_account-Keeps, post_session-Keeps, delete_session-Keeps, post_device-Keeps,
  post_lookup-Keeps, post_packages-Keeps, post_message-Keeps, get_messages-Keeps,
  post_receipt-Keeps, post_status-Keeps, get_status-Keeps, get_account-Keeps, peer_event-Keeps,
  peer_devices-Keeps, peer_receipt-Keeps, peer_status-Keeps,
)

module _ (lib : Library) (Seen : ℕ → Type 0) (Drawn : String → Type 0) where
  not_found-Keeps : Keeps lib Seen Drawn not_found
  unfolding not_found
  not_found-Keeps = fail-Keeps _ _ _ _ _ _

  use_nonce-db :
      (peer : Peer) (req : Request) (t : ℤ) (now : ℕ) (db : Db)
      → (use_nonce peer req (verified t) now db).1
        ≡ (record_federation_nonce peer.peer_id req.signed.nonce t now db).1
  unfolding use_nonce
  use_nonce-db peer req t now db = ground arith

  use_nonce-Runs :
      (peer : Peer) (req : Request) (v : Verified) (now : ℕ) (db : Db)
      → Seen now
      → Runs lib Seen Drawn db (use_nonce peer req v now db).1
  unfolding use_nonce
  use_nonce-Runs peer req (rejected type_error) now db s = here
  use_nonce-Runs peer req (rejected invalid_federation_timestamp) now db s = here
  use_nonce-Runs peer req (rejected stale_federation_request) now db s = here
  use_nonce-Runs peer req (rejected invalid_federation_nonce) now db s = here
  use_nonce-Runs peer req (rejected invalid_federation_signature) now db s = here
  use_nonce-Runs peer req (verified t) now db s =
      subst (Runs lib Seen Drawn db) (sym (use_nonce-db peer req t now db))
        (next here (recorded peer.peer_id req.signed.nonce t now s))

  if-Runs :
      (b : Bool) (db : Db) (x y : Auth × Db)
      → Runs lib Seen Drawn db x.1
      → Runs lib Seen Drawn db y.1
      → Runs lib Seen Drawn db (if b then x else y).1
  if-Runs true db x y r q = r
  if-Runs false db x y r q = q

  federation_peer-Runs :
      (crypto : Crypto) (req : Request) (checked now : ℕ) (db : Db)
      → Seen now
      → Runs lib Seen Drawn db (federation_peer crypto req checked now db).1
  unfolding federation_peer
  federation_peer-Runs crypto req checked now db s =
      elim (Option-cases (get_peer req.peer_header db)) [
        | inl gone ↦ rw (gone, federation_peer) here
        | inr (peer, found) ↦
            rw (found, federation_peer) (if-Runs _ db _ _ here (use_nonce-Runs peer req _ now db s))
      ]

  admitted-Keeps : (a : Auth) → Keeps lib Seen Drawn (admitted a)
  unfolding admitted finish fail crash
  admitted-Keeps (authenticated p) = record { run = λ s. here }
  admitted-Keeps (refused peer_authentication_failed) = record { run = λ s. here }
  admitted-Keeps (refused replayed_request) = record { run = λ s. here }
  admitted-Keeps (refused internal_error) = record { run = λ s. here }

  module _ (req : HttpRequest) (draws : Draws) where
    client_endpoint-Keeps :
        (body : Octets) (account : Account) (token : String) (m : HttpMethod)
        → Keeps lib Seen Drawn (client_endpoint lib req draws body account token m)
    unfolding client_endpoint
    client_endpoint-Keeps body account token post =
        search (if-Keeps, endpoints, not_found-Keeps) depth 12
    client_endpoint-Keeps body account token get =
        search (if-Keeps, endpoints, not_found-Keeps) depth 12
    client_endpoint-Keeps body account token delete =
        search (if-Keeps, endpoints, not_found-Keeps) depth 12

    dispatch_client-Keeps :
        (body : Octets)
        → Drawn draws.token
        → Keeps lib Seen Drawn (dispatch_client lib req draws body)
    unfolding dispatch_client
    dispatch_client-Keeps body d = search (parts, endpoints, client_endpoint-Keeps) depth 12

    peer_of-Keeps :
        (body : Octets) → Seen (draws.clock 1) → Keeps lib Seen Drawn (peer_of lib req draws body)
    unfolding peer_of
    peer_of-Keeps body t = record {
      run = λ s.
          Runs-trans lib Seen Drawn
            (federation_peer-Runs lib.crypto (signed_request req body) (draws.clock 0)
              (draws.clock 1) s.db t)
            ((admitted-Keeps _).run _);
    }

    pub peer_endpoint-Keeps :
        (body : Octets) (peer_id : String) (m : HttpMethod)
        → Keeps lib Seen Drawn (peer_endpoint lib req draws body peer_id m)
    unfolding peer_endpoint
    peer_endpoint-Keeps body peer_id post = search (if-Keeps, endpoints, not_found-Keeps) depth 12
    peer_endpoint-Keeps body peer_id get = search (if-Keeps, endpoints, not_found-Keeps) depth 12
    peer_endpoint-Keeps body peer_id delete = not_found-Keeps

    dispatch_federation-Keeps :
        (body : Octets)
        → Seen (draws.clock 1)
        → Keeps lib Seen Drawn (dispatch_federation lib req draws body)
    unfolding dispatch_federation
    dispatch_federation-Keeps body t = search (parts, peer_of-Keeps, peer_endpoint-Keeps) depth 12

    on_plane-Keeps :
        (plane : Plane) (body : Octets)
        → Seen (draws.clock 1)
        → Drawn draws.token
        → Keeps lib Seen Drawn (on_plane lib req draws plane body)
    unfolding on_plane
    on_plane-Keeps client body t d = dispatch_client-Keeps body d
    on_plane-Keeps federation body t d = dispatch_federation-Keeps body t

    versioned-Keeps :
        (plane : Plane) (rest : Option String)
        → Keeps lib Seen Drawn (versioned lib req draws plane rest)
    unfolding versioned require_protocol
    versioned-Keeps plane none = search parts
    versioned-Keeps plane (some s) = search parts

    body_of-Keeps : (m : HttpMethod) → Keeps lib Seen Drawn (body_of lib req draws m)
    unfolding body_of
    body_of-Keeps post = search parts
    body_of-Keeps get = search parts
    body_of-Keeps delete = search parts

    health-Keeps : (plane : Plane) → Keeps lib Seen Drawn (health lib req draws plane)
    unfolding health
    health-Keeps plane = search parts

    handle-Keeps :
        (plane : Plane)
        → Seen (draws.clock 1)
        → Drawn draws.token
        → Keeps lib Seen Drawn (handle lib req draws plane)
    unfolding handle routed
    handle-Keeps plane t d =
        search (parts, body_of-Keeps, health-Keeps, versioned-Keeps, on_plane-Keeps) depth 15

  -- Whatever a request holds and however it is answered, the database after it is one that calls of the
  -- store lead to from the database before; a nonce is recorded at the second reading of the clock, and
  -- a session is opened under the token that was drawn.
  pub dispatch-Runs :
      (req : HttpRequest) (draws : Draws) (id : String) (plane : Plane) (s : Server)
      → Seen (draws.clock 1)
      → Drawn draws.token
      → Runs lib Seen Drawn s.db (dispatch lib req draws id plane s).1.db
  unfolding dispatch
  dispatch-Runs req draws id plane s t d = (handle-Keeps req draws plane t d).run s
