-- ===== src/Api/History/Replay.antt =====
-- A request of a peer is answered once.
use mathlib.Core.Path.{subst}
use home_assistant_chat_comp.Prelude.{ℕ, ◌+◌, ◌≤◌, String, ◌≡◌, ◌≢◌, refl, arith, ap, any_row}
use home_assistant_chat_comp.Schema.{Db}
use home_assistant_chat_comp.Store.Nonces.Replay.{Holds, record_federation_nonce-Holds}
use home_assistant_chat_comp.Store.Frame.{Step-IsQuiet}
use home_assistant_chat_comp.Store.Frame.Others.{
  register_device-IsApart, add_key_packages-IsAside, claim_device_packages-IsAside,
  mark_receipt_outbox_delivered-IsAside, mark_receipt_outbox_failed-IsAside,
  account_for_token-IsLogin, create_session-IsLogin, revoke_session-IsLogin,
}
use home_assistant_chat_comp.Schema.{SessionRow}
use home_assistant_chat_comp.Prelude.{true, false, List, [], ◌∷◌}
use home_assistant_chat_comp.Wire.{Octets}
use home_assistant_chat_comp.Api.{authenticated, federation_peer}
use home_assistant_chat_comp.Api.Replay.{repetition_refused}
use home_assistant_chat_comp.Api.Http.{
  Library, HttpRequest, Draws, Server, Outcome, done, api_error, crashed, disconnected, Reply,
  ◌>>=◌, resume, finish, fail, crash,
}
use home_assistant_chat_comp.Api.Peers.{signed_request, admitted, peer_of}
use home_assistant_chat_comp.Api.Dispatch.{peer_endpoint, dispatch_federation}
use home_assistant_chat_comp.Api.Calls.{
  Call, event_call, looked_up, logged_in, logged_out, registered, uploaded, claimed, receipt_sent,
  receipt_put_off, recorded, Runs, here, next, Runs-trans,
}
use home_assistant_chat_comp.Api.Calls.Planes.{peer_endpoint-Keeps}
use home_assistant_chat_comp.Api.History.{History, History-Runs}

pub no_row : (rows : List SessionRow) → any_row (λ (s : SessionRow). false) rows ≡ false
unfolding any_row
no_row [] = refl
no_row (r ∷ rows) = no_row rows

module _ (lib : Library) (Drawn : String → Type 0) (last : ℕ) (p n : String) where
  -- the readings of the clock up to the last one
  abbrev Before : ℕ → Type 0
  Before now = now ≤ last

  Call-Holds : {db db' : Db} → Call lib Before Drawn db db' → Holds p n last db → Holds p n last db'
  Call-Holds {db} (event_call step) h =
      let f =
        Step-IsQuiet (λ _. false) db.nonces (λ _. true) lib.json (λ _ _ _. refl) step
          (record { nonces = refl; sessions = no_row db.sessions; devices = refl }) in
      rw f.nonces h
  Call-Holds {db} (looked_up token now) h =
      let f = account_for_token-IsLogin lib.token_digest token now db in rw f.nonces h
  Call-Holds {db} (logged_in id lifetime token now d) h =
      let f = create_session-IsLogin lib.token_digest id lifetime token now db in rw f.nonces h
  Call-Holds {db} (logged_out token) h =
      let f = revoke_session-IsLogin lib.token_digest token db in rw f.nonces h
  Call-Holds {db} (registered account device key label now) h =
      let f = register_device-IsApart account device key label now db in rw f.nonces h
  Call-Holds {db} (uploaded account device ps now) h =
      let f = add_key_packages-IsAside lib.json account device ps now db in rw f.nonces h
  Call-Holds {db} (claimed identity claimant now) h =
      let f = claim_device_packages-IsAside lib.json identity claimant now db in rw f.nonces h
  Call-Holds {db} (receipt_sent id) h =
      let f = mark_receipt_outbox_delivered-IsAside id db in rw f.nonces h
  Call-Holds {db} (receipt_put_off id attempts error now) h =
      let f = mark_receipt_outbox_failed-IsAside id attempts error now db in rw f.nonces h
  Call-Holds {db} (recorded peer nonce t now seen) h =
      record_federation_nonce-Holds p n last peer nonce t now db seen h

  Runs-Holds : {db db' : Db} → Runs lib Before Drawn db db' → Holds p n last db → Holds p n last db'
  Runs-Holds here h = h
  Runs-Holds (next r c) h = Call-Holds c (Runs-Holds r h)

module _ (lib : Library) (Drawn : String → Type 0) (req : HttpRequest) (body : Octets) where
  -- A handler of the federation plane has replied, so the request was authenticated.
  replied :
      (draws : Draws) (r : Reply) (s s' : Server)
      → dispatch_federation lib req draws body s ≡ (done r, s')
      → (peer : String) × (s'' : Server) × (peer_of lib req draws body s ≡ (done peer, s''))
        × (peer_endpoint lib req draws body peer req.method s'' ≡ (done r, s'))
  unfolding dispatch_federation ◌>>=◌
  replied draws r s s' h = go (peer_of lib req draws body s) refl h
    where
      go :
          (o : Outcome String × Server)
          → peer_of lib req draws body s ≡ o
          → resume o (λ peer. peer_endpoint lib req draws body peer req.method) ≡ (done r, s')
          → (peer : String) × (s'' : Server) × (peer_of lib req draws body s ≡ (done peer, s''))
            × (peer_endpoint lib req draws body peer req.method s'' ≡ (done r, s'))
      go (done peer, s'') e k = (peer, s'', e, k)
      go (api_error status code message, s'') e k = absurd (ground arith)
      go (crashed, s'') e k = absurd (ground arith)
      go (disconnected, s'') e k = absurd (ground arith)

  -- the same of the authentication
  authenticated_peer :
      (draws : Draws) (peer : String) (s s' : Server)
      → peer_of lib req draws body s ≡ (done peer, s')
      → federation_peer lib.crypto (signed_request req body) (draws.clock 0) (draws.clock 1) s.db
        ≡ (authenticated peer, s'.db)
  unfolding peer_of admitted finish fail crash
  authenticated_peer draws peer s s' h = ground arith

  -- A request of a peer that got a reply of its endpoint gets none again: whatever requests come to the
  -- two planes in between, and whatever calls of the store the dispatcher and other threads make, if
  -- neither they nor the repetition record a nonce at a reading of the clock that is more than 300
  -- seconds above the one at which the timestamp of the repetition is checked.
  pub replied_once :
      (draws again : Draws) (r r' : Reply) (s s' t t' : Server)
      → dispatch_federation lib req draws body s ≡ (done r, s')
      → again.clock 1 ≤ again.clock 0 + 300
      → History lib (λ now. now ≤ again.clock 0 + 300) Drawn s'.db t.db
      → dispatch_federation lib req again body t ≢ (done r', t')
  replied_once draws again r r' s s' t t' h soon between k =
      let a = replied draws r s s' h in
      let b = replied again r' t t' k in
      let Before : ℕ → Type 0 = λ now. now ≤ again.clock 0 + 300 in
      let stored =
        subst (Runs lib Before Drawn a.1.db) (ap (λ (x : Outcome Reply × Server). x.1.db) a.3)
          ((peer_endpoint-Keeps lib Before Drawn req draws body a.0 req.method).run a.1) in
      let runs = Runs-trans lib Before Drawn stored (History-Runs lib Before Drawn between) in
      repetition_refused lib.crypto (signed_request req body) (draws.clock 0) (draws.clock 1)
        (again.clock 0) (again.clock 1) a.0 b.0 s.db a.1.db t.db b.1.db
        (authenticated_peer draws a.0 s a.1 a.2) soon
        (λ x n held. Runs-Holds lib Drawn (again.clock 0 + 300) x n runs held)
        (authenticated_peer again b.0 t b.1 b.2)
