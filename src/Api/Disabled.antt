-- ===== src/Api/Disabled.antt =====
-- What the federation plane does after `disable_all_peers`.
use home_assistant_chat_comp.Prelude.{
  ℕ, String, ◌≡◌, ◌≢◌, refl, true, false, some, arith, find?-update, Option-cases, inl, inr,
}
use home_assistant_chat_comp.Schema.{Db, PeerRow}
use home_assistant_chat_comp.Security.{Crypto}
use home_assistant_chat_comp.Store.Peers.{Peer, is_peer, get_peer, disable_all_peers}
use home_assistant_chat_comp.Api.{Request, authenticated, federation_peer}

disabled_peer :
    (id : String) (p : Peer) (db : Db)
    → get_peer id (disable_all_peers db).1 ≡ some p
    → p.enabled ≡ false
unfolding get_peer disable_all_peers
disabled_peer id p db h = ground (
  arith,
  find?-update (is_peer id) (λ (p : PeerRow). true) (λ p. record p { enabled = false }) db.peers
      (λ p. refl),
)

-- After the peers were disabled no request is authenticated, whatever it holds.
disabled_not_authenticated :
    (crypto : Crypto) (req : Request) (checked now : ℕ) (p : String) (db db' : Db)
    → federation_peer crypto req checked now (disable_all_peers db).1 ≢ (authenticated p, db')
unfolding federation_peer
disabled_not_authenticated crypto req checked now p db db' h =
    elim (Option-cases (get_peer req.peer_header (disable_all_peers db).1)) [
      | inl gone ↦ ground arith
      | inr (peer, found) ↦ ground (arith, disabled_peer req.peer_header peer db found)
    ]
