-- ===== src/Tests/Accounts.antt =====
-- An account that is created, and a login by its password.
use home_assistant_chat_comp.Prelude.{
  pos, ◌≤◌, ◌≡◌, refl, none, some, true, false, List, [], ◌∷◌, str_eq, find?, any_row, count_where,
  if◌then◌else◌,
}
use home_assistant_chat_comp.Text.{any_char, lstrip, rstrip, strip}
use home_assistant_chat_comp.Text.Split.{split_on}
use home_assistant_chat_comp.Schema.{Db, AccountRow}
use home_assistant_chat_comp.Exec.{ok}
use home_assistant_chat_comp.Security.{Crypto, decode_b64url}
use home_assistant_chat_comp.Security.Passwords.{
  Kdf, hash_password, verify_password, stored_hash, bytes_eq,
}
use home_assistant_chat_comp.Store.Sessions.{account_of}
use home_assistant_chat_comp.Store.Accounts.{
  Draw, has_identity, is_bad_name, draw_identity, create_account, digits_value, is_identity,
  authenticate,
}
use home_assistant_chat_comp.Store.Accounts.Laws.{create_account_new, authenticate_sound}
use home_assistant_chat_comp.Tests.Data.{db}

-- functions for the run, in place of those of the standard library
abbrev crypto : Crypto
crypto = record {
  int = λ s.
      if str_eq s "16384"
      then some (pos 16384)
      else if str_eq s "8"
      then some (pos 8)
      else if str_eq s "1"
      then some (pos 1)
      else none;
  urlsafe_b64decode = λ _. some (7 ∷ []);
  sha256_hex = λ _. "00";
  hmac_sha256 = λ _ _. "sig";
}

abbrev kdf : Kdf
kdf = record { scrypt = λ _ _. 7 ∷ []; b64url = λ _. "Bw" }

-- the first number belongs to Bob, the second to nobody
abbrev draws : List Draw
draws = record { id = "x"; number = 12222222 } ∷ record { id = "carol"; number = 23333333 } ∷ []

abbrev carol : AccountRow
carol = record {
  id = "carol";
  identity = 33333333;
  display_name = "Carol";
  password_hash = "scrypt$16384$8$1$Bw$Bw";
  is_admin = false;
  enabled = true;
  created_at = 1000;
}

abbrev carol_db : Db
carol_db = record db { accounts = carol ∷ db.accounts }

carol_created :
    create_account kdf (7 ∷ []) " Carol " "correct horse" false draws 1000 db
    ≡ (ok (account_of carol), carol_db)
unfolding create_account draw_identity hash_password is_bad_name strip lstrip rstrip any_char find?
    any_row
carol_created = refl

create_account_new_example :
    (row : AccountRow) × (carol_db.accounts ≡ row ∷ db.accounts)
    × (account_of carol ≡ account_of row)
    × (count_where (has_identity row.identity) db.accounts ≡ 0)
    × (10_000_000 ≤ row.identity)
    × (row.identity ≤ 99_999_999)
    × (row.enabled ≡ true)
    × (row.display_name ≡ strip " Carol ")
    × (is_bad_name row.display_name ≡ false)
    × (some row.password_hash ≡ hash_password kdf (7 ∷ []) "correct horse")
create_account_new_example =
    create_account_new kdf (7 ∷ []) " Carol " "correct horse" false draws 1000 (account_of carol) db
      carol_db carol_created

carol_known :
    authenticate crypto kdf "33333333" "correct horse" carol_db
    ≡ (ok (some (account_of carol)), carol_db)
unfolding authenticate is_identity digits_value find? verify_password split_on stored_hash
    decode_b64url bytes_eq
carol_known = refl

authenticate_sound_example :
    (row : AccountRow) × (find? (has_identity (digits_value 0 "33333333")) carol_db.accounts
      ≡ some row)
    × (account_of carol ≡ account_of row)
    × (row.enabled ≡ true)
    × (verify_password crypto kdf "correct horse" (some row.password_hash) ≡ true)
    × (carol_db ≡ carol_db)
authenticate_sound_example =
    authenticate_sound crypto kdf "33333333" "correct horse" (account_of carol) carol_db carol_db
      carol_known
