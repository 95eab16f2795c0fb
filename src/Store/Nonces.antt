-- ===== src/Store/Nonces.antt =====
-- `record_federation_nonce`: the one-use nonces of signed federation requests.
pub mod Replay
use home_assistant_chat_comp.Prelude.{
  ℕ, ℤ, String, Bool, true, false, ◌&&◌, ◌||◌, not, List, [], ◌∷◌, ltb_ℤ, sub_ℕ, str_eq, any_row,
  delete_where, if◌then◌else◌,
}
use home_assistant_chat_comp.Schema.{Db, NonceRow, PeerRow}
use home_assistant_chat_comp.Exec.{Method, ok}

-- the primary key of `federation_nonces`
abbrev pub is_nonce : String → String → NonceRow → Bool
is_nonce peer_id nonce row = str_eq row.peer_id peer_id && str_eq row.nonce nonce

-- `WHERE seen_at < cutoff`
abbrev pub is_forgotten : ℕ → NonceRow → Bool
is_forgotten now row = ltb_ℤ row.seen_at (sub_ℕ now 600)

-- `federation_nonces` after the deletion of the old rows
pub recent_nonces : ℕ → Db → List NonceRow
recent_nonces now db = delete_where (is_forgotten now) db.nonces

-- The insertion fails on a nonce that is present (primary key) and on an unknown peer (reference).
unfoldable pub record_federation_nonce : String → String → ℤ → ℕ → Method Bool
unfolding recent_nonces
record_federation_nonce peer_id nonce seen_at now db =
    let kept = recent_nonces now db in
    if any_row (is_nonce peer_id nonce) kept
      || not (any_row (λ (p : PeerRow). str_eq p.peer_id peer_id) db.peers)
    then (ok false, record db { nonces = kept })
    else (
      ok true,
      record db { nonces = record { peer_id = peer_id; nonce = nonce; seen_at = seen_at } ∷ kept },
    )
