-- ===== src/Store/Sessions.antt =====
-- The bearer sessions: `create_session`, `account_for_token` and `revoke_session`. The token is
-- drawn by the caller (`secrets`), and its digest is SHA-256, a parameter.
pub mod Laws
use home_assistant_chat_comp.Prelude.{
  ℕ, ◌+◌, String, Bool, ◌&&◌, ◌||◌, not, Option, none, some, ◌∷◌, leb, ltb, str_eq, find?, any_row,
  delete_where, update_where, if◌then◌else◌,
}
use home_assistant_chat_comp.Text.{is_url_char, is_ascii, repeated}
use home_assistant_chat_comp.Schema.{Db, AccountRow, SessionRow}
use home_assistant_chat_comp.Exec.{
  Method, pure, gets, modify, raise_if, integrity_error, ◌>>=◌, ◌>>◌,
}

-- the dataclass `Account`
pub record Account : Type 0 where
  pub id : String
  pub identity : ℕ
  pub display_name : String
  pub is_admin : Bool
  pub enabled : Bool
  pub created_at : ℕ

-- `_account`
unfoldable pub account_of : AccountRow → Account
account_of row = record {
  id = row.id;
  identity = row.identity;
  display_name = row.display_name;
  is_admin = row.is_admin;
  enabled = row.enabled;
  created_at = row.created_at;
}

-- `[A-Za-z0-9_-]{43}`
unfoldable pub is_token : String → Bool
unfolding repeated
is_token token = repeated is_url_char 43 43 token

-- The query joins on the account's id, which is a primary key, as the digest is of the sessions.
unfoldable pub session_account : String → ℕ → Db → Option AccountRow
session_account digest now db =
    elim (find? (λ (s : SessionRow). str_eq s.token_hash digest && ltb now s.expires_at)
      db.sessions) [
        | none ↦ none
        | some s ↦ find? (λ (a : AccountRow). str_eq a.id s.account_id && a.enabled) db.accounts
      ]

module _ (token_digest : String → String) where
  unfoldable pub create_session : String → ℕ → String → ℕ → Method (String × ℕ)
  create_session account_id lifetime token now = do
    let expires = now + lifetime
    modify (λ db. record db {
      sessions = delete_where (λ (s : SessionRow). leb s.expires_at now) db.sessions;
    })
    taken ←
        gets
          (λ db. any_row (λ (s : SessionRow). str_eq s.token_hash (token_digest token)) db.sessions)
    known ← gets (λ db. any_row (λ (a : AccountRow). str_eq a.id account_id) db.accounts)
    raise_if (taken || not known) integrity_error
    modify (λ db. record db {
      sessions =
          record {
            token_hash = token_digest token;
            account_id = account_id;
            created_at = now;
            expires_at = expires;
            last_seen_at = now;
          }
          ∷ db.sessions;
    })
    pure (token, expires)

  unfoldable pub account_for_token : String → ℕ → Method (Option Account)
  account_for_token token now db =
      if not (is_token token)
      then pure none db
      else elim (session_account (token_digest token) now db) [
        | none ↦ pure none db
        | some row ↦ pure (some (account_of row)) (record db {
          sessions =
              update_where (λ s. str_eq s.token_hash (token_digest token))
                (λ s. record s { last_seen_at = now }) db.sessions;
        })
      ]

  -- A token that is no ASCII text has no digest.
  unfoldable pub revoke_session : String → Method (Unit {0})
  revoke_session token db =
      if is_ascii token
      then modify
          (λ db. record db {
            sessions =
                delete_where (λ (s : SessionRow). str_eq s.token_hash (token_digest token))
                  db.sessions;
          })
          db
      else pure tt db
