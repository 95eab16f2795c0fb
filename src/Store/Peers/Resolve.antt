-- ===== src/Store/Peers/Resolve.antt =====
-- Which peer an address names.
use home_assistant_chat_comp.Prelude.{
  ℕ, String, ◌≡◌, refl, true, false, ◌&&◌, Option, none, some, List, [], ◌∷◌, arith, ◌==◌, find?,
  select, update_where, Option-cases, inl, inr,
}
use home_assistant_chat_comp.Address.{IpAddress, parse_ipv4}
use home_assistant_chat_comp.Schema.{Db, PeerRow}
use home_assistant_chat_comp.Exec.{ok}
use home_assistant_chat_comp.Store.Peers.{
  Peer, is_at, only_row, endpoint_row, join_transport, resolve_peer, disable_all_peers,
}

-- the update of `disable_all_peers`
abbrev pub all_disabled : List PeerRow → List PeerRow
all_disabled = update_where (λ (p : PeerRow). true) (λ p. record p { enabled = false })

no_row_at :
    (address : String) (rows : List PeerRow) → select (is_at address) (all_disabled rows) ≡ []
unfolding select update_where
no_row_at address [] = refl
no_row_at address (p ∷ rows) = ground (arith, no_row_at address rows)

no_endpoint :
    (address : String) (port : ℕ) (rows : List PeerRow)
    → find? (λ p. is_at address p && p.port == port) (all_disabled rows) ≡ none
unfolding find? update_where
no_endpoint address port [] = refl
no_endpoint address port (p ∷ rows) = ground (arith, no_endpoint address port rows)

-- After the peers were disabled no address that parses names a peer, with a port or without, and
-- looking it up changes nothing.
disabled_not_resolved :
    (ip_address : String → Option IpAddress) (address canonical : String) (port : Option ℕ)
    (db : Db)
    → parse_ipv4 ip_address address ≡ some canonical
    → resolve_peer ip_address address port (disable_all_peers db).1
      ≡ (ok none, (disable_all_peers db).1)
unfolding resolve_peer disable_all_peers endpoint_row
disabled_not_resolved ip_address address canonical none db h =
    ground (arith, no_row_at canonical db.peers)
disabled_not_resolved ip_address address canonical (some port) db h =
    ground (arith, no_endpoint canonical port db.peers)

only_row-eq : (rows : List PeerRow) (p : PeerRow) → only_row rows ≡ some p → rows ≡ p ∷ []
only_row-eq [] p h = absurd (ground arith)
only_row-eq (q ∷ []) p h = ground arith
only_row-eq (q ∷ q' ∷ rows) p h = absurd (ground arith)

-- An address that parses, without a port, and that resolves names the only enabled peer at that
-- address; nothing is changed.
resolve_peer_unambiguous :
    (ip_address : String → Option IpAddress) (address canonical : String) (p : Peer) (db db' : Db)
    → parse_ipv4 ip_address address ≡ some canonical
    → resolve_peer ip_address address none db ≡ (ok (some p), db')
    → (r : PeerRow) × (p ≡ join_transport db.transports r)
      × (select (is_at canonical) db.peers ≡ r ∷ [])
      × (db' ≡ db)
unfolding resolve_peer endpoint_row
resolve_peer_unambiguous ip_address address canonical p db db' h k =
    elim (Option-cases (only_row (select (is_at canonical) db.peers))) [
      | inl none_named ↦ absurd (ground arith)
      | inr (r, found) ↦
          (r, ground arith, only_row-eq (select (is_at canonical) db.peers) r found, ground arith)
    ]
