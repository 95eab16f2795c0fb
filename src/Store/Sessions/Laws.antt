-- ===== src/Store/Sessions/Laws.antt =====
-- Sessions from login to logout.
use home_assistant_chat_comp.Prelude.{
  ℕ, ◌≤◌, String, ◌≡◌, refl, true, ◌&&◌, none, some, arith, str_eq, ltb, eq_iff, eq_refl, find?,
  find?-delete_self, leb, List, [], ◌∷◌, All,
}
use home_assistant_chat_comp.Prelude.{any_row, delete_where, ◌+◌, false, if◌then◌else◌}
use home_assistant_chat_comp.Text.{is_url_char, is_ascii, repeated, all_chars_mono}
use home_assistant_chat_comp.Schema.{Db, AccountRow, SessionRow}
use home_assistant_chat_comp.Exec.{ok}
use home_assistant_chat_comp.Store.Sessions.{
  account_of, is_token, session_account, create_session, account_for_token, revoke_session,
}

-- A token is an ASCII text.
pub is_token-is_ascii : (token : String) → is_token token ≡ true → is_ascii token ≡ true
unfolding is_token repeated is_ascii
is_token-is_ascii token h =
    all_chars_mono is_url_char (λ c. leb c 127) token (λ c. ground arith) (ground arith)

module _ (token_digest : String → String) where
  none_live :
      (token : String) (now : ℕ) (rows : List SessionRow)
      → All (λ (s : SessionRow). s.token_hash ≡ token_digest token → s.expires_at ≤ now) rows
      → find?
          (λ (s : SessionRow). str_eq s.token_hash (token_digest token) && ltb now s.expires_at)
          rows
        ≡ none
  unfolding find?
  none_live token now [] h = refl
  none_live token now (s ∷ rows) h =
      ground (arith, eq_iff s.token_hash (token_digest token), h.0, none_live token now rows h.1)

  -- After a logout the token stands for no account, at any time.
  logout_lookup :
      (token : String) (later : ℕ) (db : Db)
      → (account_for_token token_digest token later (revoke_session token_digest token db).1).0
        ≡ ok none
  unfolding revoke_session account_for_token session_account
  logout_lookup token later db = ground (
    arith,
    is_token-is_ascii token,
    find?-delete_self
        (λ (s : SessionRow). str_eq s.token_hash (token_digest token) && ltb later s.expires_at)
        (λ (s : SessionRow). str_eq s.token_hash (token_digest token)) db.sessions
        (λ s. ground arith),
  )

  -- While every session with the token's digest has expired, or none is there, the token stands for
  -- no account and the database stays as it is.
  expired_lookup :
      (token : String) (now : ℕ) (db : Db)
      → All (λ (s : SessionRow). s.token_hash ≡ token_digest token → s.expires_at ≤ now) db.sessions
      → account_for_token token_digest token now db ≡ (ok none, db)
  unfolding account_for_token session_account
  expired_lookup token now db h = ground (arith, none_live token now db.sessions h)

  -- The digest of a login's token is the digest of no session that was left before.
  fresh_digest :
      (token : String) (later : ℕ) (rows : List SessionRow)
      → any_row (λ (s : SessionRow). str_eq s.token_hash (token_digest token)) rows ≡ false
      → find?
          (λ (s : SessionRow). str_eq s.token_hash (token_digest token) && ltb later s.expires_at)
          rows
        ≡ none
  unfolding any_row find?
  fresh_digest token later [] h = refl
  fresh_digest token later (s ∷ rows) h = ground (arith, fresh_digest token later rows)

  -- What a token stands for on the database that its login left, if the login returned, the account is
  -- found enabled and the token has the shape of one: before the session expires the account, and
  -- from then on nothing; and after a logout of the token at once nothing, at any time.
  pub login_lookup :
      (id : String) (lifetime : ℕ) (token : String) (now later expires : ℕ) (row : AccountRow)
      (db db' : Db)
      → create_session token_digest id lifetime token now db ≡ (ok (token, expires), db')
      → find? (λ (a : AccountRow). str_eq a.id id && a.enabled) db.accounts ≡ some row
      → is_token token ≡ true
      → ((account_for_token token_digest token later db').0
          ≡ ok (if ltb later expires then some (account_of row) else none))
        × ((account_for_token token_digest token later (revoke_session token_digest token db').1).0
            ≡ ok none)
        × (expires ≡ now + lifetime)
  unfolding create_session account_for_token session_account find?
  login_lookup id lifetime token now later expires row db db' made found shape = (
    ground (
      arith,
      eq_refl (token_digest token),
      fresh_digest token later
          (delete_where (λ (s : SessionRow). leb s.expires_at now) db.sessions),
    ),
    logout_lookup token later db',
    ground arith,
  )
