-- ===== src/Api/History/Logout.antt =====
-- A token that was revoked stays revoked.
use home_assistant_chat_comp.Prelude.{
  ℕ, String, true, false, none, some, [], ◌≡◌, ◌≢◌, refl, arith, any_row, find?, str_eq, ltb, ◌&&◌,
  delete_where, List, ◌∷◌,
}
use home_assistant_chat_comp.Schema.{Db, SessionRow}
use home_assistant_chat_comp.Exec.{ok}
use home_assistant_chat_comp.Store.Sessions.{
  is_token, session_account, account_for_token, revoke_session,
}
use home_assistant_chat_comp.Store.Frame.{Step-IsQuiet}
use home_assistant_chat_comp.Store.Frame.Others.{
  IsAbsent, register_device-IsApart, add_key_packages-IsAside, claim_device_packages-IsAside,
  mark_receipt_outbox_delivered-IsAside, mark_receipt_outbox_failed-IsAside,
  account_for_token-IsAbsent, create_session-IsAbsent, revoke_session-IsAbsent,
  record_federation_nonce-aside,
}
use home_assistant_chat_comp.Store.Sessions.Laws.{is_token-is_ascii}
use home_assistant_chat_comp.Wire.{Octets}
use home_assistant_chat_comp.Api.Http.{
  Library, HttpRequest, Draws, Server, done, api_error, Reply, ◌>>=◌, call, uncaught, require,
  reply, finish, fail, crash, header_or_empty,
}
use home_assistant_chat_comp.Api.Client.{bearer, client_account, delete_session}
use home_assistant_chat_comp.Api.Dispatch.{is_login, dispatch_client}
use mathlib.Core.Path.{subst}
use home_assistant_chat_comp.Prelude.{Bool, sym, ap, ◌&&◌, not, true, false, some}
use home_assistant_chat_comp.Text.Parts.{after_prefix}
use home_assistant_chat_comp.Api.Http.{client, Outcome, fail_if, admit_general}
use home_assistant_chat_comp.Api.Dispatch.{
  dispatch, handle, routed, on_plane, answer, versioned, body_of, is_post, is_get, has_length,
  error_body, request_id,
}
use home_assistant_chat_comp.Api.Calls.{
  Call, event_call, looked_up, logged_in, logged_out, registered, uploaded, claimed, receipt_sent,
  receipt_put_off, recorded, Runs, here, next,
}
use home_assistant_chat_comp.Api.History.{History, History-Runs}

none_live :
    (d : String) (now : ℕ) (rows : List SessionRow)
    → any_row (λ (s : SessionRow). str_eq s.token_hash d) rows ≡ false
    → find? (λ (s : SessionRow). str_eq s.token_hash d && ltb now s.expires_at) rows ≡ none
unfolding any_row find?
none_live d now [] h = refl
none_live d now (s ∷ rows) h = ground (arith, none_live d now rows)

none_left :
    (d : String) (rows : List SessionRow)
    → any_row
        (λ (s : SessionRow). str_eq s.token_hash d)
        (delete_where (λ (s : SessionRow). str_eq s.token_hash d) rows)
      ≡ false
unfolding any_row delete_where
none_left d [] = refl
none_left d (s ∷ rows) = ground (arith, none_left d rows)

module _ (lib : Library) (Seen : ℕ → Type 0) (d : String) where
  -- the tokens of another digest
  abbrev Other : String → Type 0
  Other token = lib.token_digest token ≢ d

  Call-IsAbsent : {db db' : Db} → Call lib Seen Other db db' → IsAbsent d db → IsAbsent d db'
  Call-IsAbsent {db} (event_call step) h =
      (Step-IsQuiet (λ (s : SessionRow). str_eq s.token_hash d) db.nonces (λ _. true) lib.json
        (λ _ _ _. refl) step (record { nonces = refl; sessions = h; devices = refl })).sessions
  Call-IsAbsent {db} (looked_up token now) h =
      account_for_token-IsAbsent lib.token_digest d token now db h
  Call-IsAbsent {db} (logged_in id lifetime token now other) h =
      create_session-IsAbsent lib.token_digest d id lifetime token now db other h
  Call-IsAbsent {db} (logged_out token) h = revoke_session-IsAbsent lib.token_digest d token db h
  Call-IsAbsent {db} (registered account device key label now) h =
      let f = register_device-IsApart account device key label now db in rw f.sessions h
  Call-IsAbsent {db} (uploaded account device ps now) h =
      let f = add_key_packages-IsAside lib.json account device ps now db in rw f.sessions h
  Call-IsAbsent {db} (claimed identity claimant now) h =
      let f = claim_device_packages-IsAside lib.json identity claimant now db in rw f.sessions h
  Call-IsAbsent {db} (receipt_sent id) h =
      let f = mark_receipt_outbox_delivered-IsAside id db in rw f.sessions h
  Call-IsAbsent {db} (receipt_put_off id attempts error now) h =
      let f = mark_receipt_outbox_failed-IsAside id attempts error now db in rw f.sessions h
  Call-IsAbsent {db} (recorded p n t now seen) h =
      let f = record_federation_nonce-aside p n t now db in rw f.2 h

  Runs-IsAbsent : {db db' : Db} → Runs lib Seen Other db db' → IsAbsent d db → IsAbsent d db'
  Runs-IsAbsent here h = h
  Runs-IsAbsent (next r c) h = Call-IsAbsent c (Runs-IsAbsent r h)

absent_lookup :
    (token_digest : String → String) (token : String) (now : ℕ) (db : Db)
    → IsAbsent (token_digest token) db
    → account_for_token token_digest token now db ≡ (ok none, db)
unfolding account_for_token session_account
absent_lookup token_digest token now db h =
    ground (arith, none_live (token_digest token) now db.sessions h)

revoked_token-IsAbsent :
    (token_digest : String → String) (token : String) (db : Db)
    → is_token token ≡ true
    → IsAbsent (token_digest token) (revoke_session token_digest token db).1
unfolding revoke_session
revoked_token-IsAbsent token_digest token db h =
    ground (arith, is_token-is_ascii token h, none_left (token_digest token) db.sessions)

bearer-is_token : (s token : String) → bearer s ≡ some token → is_token token ≡ true
unfolding bearer
bearer-is_token s token h = ground arith

module _ (lib : Library) (Seen : ℕ → Type 0) (token : String) where
  delete_session-db :
      (draws : Draws) (r : Reply) (s s' : Server)
      → delete_session lib draws token s ≡ (done r, s')
      → s'.db ≡ (revoke_session lib.token_digest token s.db).1
  unfolding delete_session ◌>>=◌ call uncaught reply finish crash revoke_session
  delete_session-db draws r s s' h = ground arith

  refused_account :
      (req : HttpRequest) (draws : Draws) (t : Server)
      → bearer (header_or_empty req "Authorization") ≡ some token
      → IsAbsent (lib.token_digest token) t.db
      → client_account lib req draws t
        ≡ (api_error 401 "invalid_session" "Session is invalid or expired", t)
  unfolding client_account ◌>>=◌ call uncaught require finish fail
  refused_account req draws t b h =
      ground (arith, absent_lookup lib.token_digest token (draws.clock 0) t.db h)

  -- behind the checks in front of the plane
  refused_on_plane :
      (req : HttpRequest) (body : Octets) (draws again : Draws) (r : Reply) (s s' t : Server)
      → delete_session lib draws token s ≡ (done r, s')
      → History lib Seen (λ x. lib.token_digest x ≢ lib.token_digest token) s'.db t.db
      → bearer (header_or_empty req "Authorization") ≡ some token
      → is_login lib req again req.method ≡ false
      → dispatch_client lib req again body t
        ≡ (api_error 401 "invalid_session" "Session is invalid or expired", t)
  unfolding dispatch_client ◌>>=◌
  refused_on_plane req body draws again r s s' t h between b other =
      let shape = bearer-is_token (header_or_empty req "Authorization") token b in
      let gone = revoked_token-IsAbsent lib.token_digest token s.db shape in
      let left : IsAbsent (lib.token_digest token) s'.db =
        rw (delete_session-db draws r s s' h) gone in
      let kept =
        Runs-IsAbsent lib Seen (lib.token_digest token) (History-Runs lib Seen _ between) left in
      ground (arith, refused_account req again t b kept)

  -- After the logout of a token every request to the client plane that bears it, is no login and passes
  -- the checks in front of the plane (the limiter, the headers, the body, the health check, the
  -- protocol) is answered with 401, and changes nothing but the limiter, whatever history comes in
  -- between in which no token of the same digest is drawn.
  pub logged_out_refused :
      (req : HttpRequest) (body : Octets) (id : String) (draws again : Draws) (r : Reply)
      (s s' t t' : Server)
      → delete_session lib draws token s ≡ (done r, s')
      → History lib Seen (λ x. lib.token_digest x ≢ lib.token_digest token) s'.db t.db
      → bearer (header_or_empty req "Authorization") ≡ some token
      → is_login lib req again req.method ≡ false
      → admit_general req.client_host again.ticks t ≡ (done true, t')
      → req.header "Transfer-Encoding" ≡ none
      → (not (is_post lib req again req.method) && has_length lib req again) ≡ false
      → body_of lib req again req.method t' ≡ (done body, t')
      → (str_eq req.path "/healthz" && is_get lib req again req.method) ≡ false
      → versioned lib req again client (after_prefix "/v1/" req.path) t' ≡ (done tt, t')
      → (dispatch lib req again id client t ≡ (
        some (record {
          status = 401;
          payload = error_body "invalid_session" "Session is invalid or expired";
          request_id = request_id req id;
        }),
        t',
      ))
        × (t'.db ≡ t.db)
  unfolding dispatch handle routed on_plane answer fail_if ◌>>=◌ admit_general
  logged_out_refused req body id draws again r s s' t t' h between b other admit te cl read path
        proto =
      let kept : t'.db ≡ t.db = sym (ap (λ (x : Outcome Bool × Server). x.1.db) admit) in
      let same : History lib Seen (λ x. lib.token_digest x ≢ lib.token_digest token) s'.db t'.db =
        subst (λ d. History lib Seen (λ x. lib.token_digest x ≢ lib.token_digest token) s'.db d)
          (sym kept) between in
      let refusal = refused_on_plane req body draws again r s s' t' h same b other in
      (ground arith, kept)
