-- ===== src/Api/Replay.antt =====
-- A signed request authenticates its peer once.
use mathlib.Core.Path.{subst}
use home_assistant_chat_comp.Prelude.{
  ℕ, ℤ, ◌+◌, ◌≤◌, String, ◌≡◌, ◌≢◌, refl, sym, ap, ◌∙◌, Bool, true, some, arith, pos_part, neg_part,
  eq_iff, find?, find?-hits, Option-cases, inl, inr,
}
use home_assistant_chat_comp.Schema.{Db}
use home_assistant_chat_comp.Exec.{Result, ok}
use home_assistant_chat_comp.Security.{
  Crypto, verified, rejected, Verified, verify_federation_signature,
}
use home_assistant_chat_comp.Security.Fresh.{verify_sound}
use home_assistant_chat_comp.Store.Peers.{Peer, is_peer, get_peer}
use home_assistant_chat_comp.Store.Nonces.{record_federation_nonce}
use home_assistant_chat_comp.Store.Nonces.Replay.{Holds, Holds-refused, recorded-Holds}
use home_assistant_chat_comp.Api.{Request, authenticated, use_nonce, federation_peer}

-- A peer that is found has the id that was asked for.
get_peer-id : (id : String) (p : Peer) (db : Db) → get_peer id db ≡ some p → p.peer_id ≡ id
unfolding get_peer
get_peer-id id p db h = elim (Option-cases (find? (is_peer id) db.peers)) [
  | inl gone ↦ ground arith
  | inr (row, found) ↦ ground (arith, find?-hits (is_peer id) db.peers, eq_iff row.peer_id id)
]

-- What an authentication has shown and done.
pub record Shown (crypto : Crypto) (req : Request) (checked now : ℕ) (db : Db) (p : String)
    (db' : Db) : Type 0 where
  pub peer : Peer
  pub timestamp : ℤ
  pub found : get_peer req.peer_header db ≡ some peer
  pub is_enabled : peer.enabled ≡ true
  pub host : req.client_host ≡ peer.address
  pub id : p ≡ peer.peer_id
  pub verification :
      verify_federation_signature crypto peer.shared_secret req.signed checked ≡ verified timestamp
  pub recorded :
      record_federation_nonce peer.peer_id req.signed.nonce timestamp now db ≡ (ok true, db')

module _ (crypto : Crypto) where
  use_nonce-verified :
      (peer : Peer) (req : Request) (v : Verified) (now : ℕ) (p : String) (db db' : Db)
      → use_nonce peer req v now db ≡ (authenticated p, db')
      → (t : ℤ) × (v ≡ verified t)
        × (p ≡ peer.peer_id)
        × (record_federation_nonce peer.peer_id req.signed.nonce t now db ≡ (ok true, db'))
  unfolding use_nonce
  use_nonce-verified peer req (rejected e) now p db db' h = absurd (ground arith)
  use_nonce-verified peer req (verified t) now p db db' h = (t, refl, ground arith, ground arith)

  federation_peer-Shown :
      (req : Request) (checked now : ℕ) (p : String) (db db' : Db)
      → federation_peer crypto req checked now db ≡ (authenticated p, db')
      → Shown crypto req checked now db p db'
  unfolding federation_peer
  federation_peer-Shown req checked now p db db' h =
      elim (Option-cases (get_peer req.peer_header db)) [
        | inl gone ↦ absurd (ground arith)
        | inr (peer, found) ↦
            let v = verify_federation_signature crypto peer.shared_secret req.signed checked in
            let e : use_nonce peer req v now db ≡ (authenticated p, db') = ground arith in
            let u = use_nonce-verified peer req v now p db db' e in
            record {
              peer = peer;
              timestamp = u.0;
              found = found;
              is_enabled = ground arith;
              host = ground (arith, eq_iff req.client_host peer.address);
              id = u.2;
              verification = u.1;
              recorded = u.3;
            }
      ]

  -- The recorded nonce is held while its timestamp is recent.
  Shown-Holds :
      (req : Request) (checked first last : ℕ) (p : String) (db db' : Db)
      → (s : Shown crypto req checked first db p db')
      → last + neg_part s.timestamp ≤ pos_part s.timestamp + 600
      → Holds s.peer.peer_id req.signed.nonce last db'
  Shown-Holds req checked first last p db db' s recent =
      let made : (record_federation_nonce s.peer.peer_id req.signed.nonce s.timestamp first db).0
          ≡ ok true =
        ap (λ (r : Result Bool × Db). r.0) s.recorded in
      subst (Holds s.peer.peer_id req.signed.nonce last)
        (ap (λ (r : Result Bool × Db). r.1) s.recorded)
        (recorded-Holds s.peer.peer_id req.signed.nonce last s.timestamp first db recent made)

  module _ (req : Request) (checked now checked' now' : ℕ) (p q : String) (db db' da da' : Db)
      (s : Shown crypto req checked now db p db')
      (u : Shown crypto req checked' now' da q da') where
    same_timestamp : s.timestamp ≡ u.timestamp
    same_timestamp =
        let a =
          verify_sound crypto s.peer.shared_secret req.signed checked s.timestamp s.verification in
        let b =
          verify_sound crypto u.peer.shared_secret req.signed checked' u.timestamp u.verification in
        ground arith

    same_peer : s.peer.peer_id ≡ u.peer.peer_id
    same_peer =
        get_peer-id req.peer_header s.peer db s.found
        ∙ sym (get_peer-id req.peer_header u.peer da u.found)

    -- The timestamp is recent for 300 seconds from the second verification on.
    still_recent : checked' + 300 + neg_part s.timestamp ≤ pos_part s.timestamp + 600
    still_recent =
        let t = same_timestamp in
        let b =
          verify_sound crypto u.peer.shared_secret req.signed checked' u.timestamp u.verification in
        ground arith

    second_recording_refused :
        now' ≤ checked' + 300 → Holds s.peer.peer_id req.signed.nonce (checked' + 300) da → ⊥
    second_recording_refused soon held =
        let refusal =
          Holds-refused u.peer.peer_id req.signed.nonce (checked' + 300) u.timestamp now' da soon
            (subst (λ (x : String). Holds x req.signed.nonce (checked' + 300) da) same_peer held) in
        let made : (record_federation_nonce u.peer.peer_id req.signed.nonce u.timestamp now' da).0
            ≡ ok true =
          ap (λ (r : Result Bool × Db). r.0) u.recorded in
        ground arith

  -- A request that was authenticated is not authenticated again on a database that kept the nonces
  -- which are recent 300 seconds from then on, if the nonce is recorded within this time.
  pub repetition_refused :
      (req : Request) (checked now checked' now' : ℕ) (p q : String) (db db' da da' : Db)
      → federation_peer crypto req checked now db ≡ (authenticated p, db')
      → now' ≤ checked' + 300
      → ((x n : String) → Holds x n (checked' + 300) db' → Holds x n (checked' + 300) da)
      → federation_peer crypto req checked' now' da ≢ (authenticated q, da')
  repetition_refused req checked now checked' now' p q db db' da da' h soon keep again =
      let s = federation_peer-Shown req checked now p db db' h in
      let u = federation_peer-Shown req checked' now' q da da' again in
      let recent = still_recent req checked now checked' now' p q db db' da da' s u in
      second_recording_refused req checked now checked' now' p q db db' da da' s u soon (
        keep s.peer.peer_id req.signed.nonce
          (Shown-Holds req checked now (checked' + 300) p db db' s recent))
