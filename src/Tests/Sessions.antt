-- ===== src/Tests/Sessions.antt =====
-- A login and a logout.
use home_assistant_chat_comp.Prelude.{
  String, ◌≡◌, refl, ◌&&◌, some, true, str_eq, find?, any_row, delete_where,
}
use home_assistant_chat_comp.Prelude.{none, ◌+◌}
use home_assistant_chat_comp.Schema.{Db, AccountRow}
use home_assistant_chat_comp.Exec.{ok}
use home_assistant_chat_comp.Store.Sessions.{
  revoke_session, account_of, is_token, create_session, account_for_token,
}
use home_assistant_chat_comp.Store.Sessions.Laws.{login_lookup}
use home_assistant_chat_comp.Tests.Data.{alice, db}

abbrev token : String
token = "abcdefghijklmnopqrstuvwxyz_ABCDEFGHIJKLMNOP"

-- a digest that keeps the text, for the run
abbrev digest : String → String
digest t = t

abbrev login_db : Db
login_db = (create_session digest "alice" 3600 token 1000 db).1

logged_in : create_session digest "alice" 3600 token 1000 db ≡ (ok (token, 4600), login_db)
unfolding create_session any_row delete_where
logged_in = refl

alice_found : find? (λ (a : AccountRow). str_eq a.id "alice" && a.enabled) db.accounts ≡ some alice
unfolding find?
alice_found = refl

token_shape : is_token token ≡ true
unfolding is_token
token_shape = refl

login_lookup_example :
    ((account_for_token digest token 2000 login_db).0 ≡ ok (some (account_of alice)))
    × ((account_for_token digest token 2000 (revoke_session digest token login_db).1).0 ≡ ok none)
    × (4600 ≡ 1000 + 3600)
login_lookup_example =
    login_lookup digest "alice" 3600 token 1000 2000 4600 alice db login_db logged_in alice_found
      token_shape
