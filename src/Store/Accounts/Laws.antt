-- ===== src/Store/Accounts/Laws.antt =====
-- What the creation of accounts and a login by password guarantee.
use home_assistant_chat_comp.Prelude.{
  ℕ, ◌≤◌, String, ◌≡◌, refl, Bool, true, false, ◌||◌, some, List, [], ◌∷◌, take, arith, str_eq,
  any_row, find?, count_where, Option-cases, Bool-cases, inl, inr,
}
use home_assistant_chat_comp.Schema.{Db, AccountRow}
use home_assistant_chat_comp.Exec.{ok, rollback-ok}
use home_assistant_chat_comp.Text.{strip}
use home_assistant_chat_comp.Security.{Bytes, Crypto}
use home_assistant_chat_comp.Security.Passwords.{Kdf, hash_password, verify_password}
use home_assistant_chat_comp.Store.Sessions.{Account, account_of}
use home_assistant_chat_comp.Store.Accounts.{
  Draw, has_identity, is_taken, is_bad_name, new_account, draw_identity, create_account,
  digits_value, authenticate,
}

-- A number that no row has is counted nowhere.
none_counted :
    (id : String) (n : ℕ) (rows : List AccountRow)
    → any_row (λ (a : AccountRow). str_eq a.id id || has_identity n a) rows ≡ false
    → count_where (has_identity n) rows ≡ 0
unfolding any_row count_where
none_counted id n [] h = refl
none_counted id n (a ∷ rows) h = ground (arith, none_counted id n rows)

module _ (name hash : String) (admin : Bool) (now : ℕ) where
  -- What a successful loop has added.
  abbrev pub Added : Account → Db → Db → Type 0
  Added acc db db' =
      (d : Draw) × (db' ≡ record db { accounts = new_account name hash admin now d ∷ db.accounts })
      × (acc ≡ account_of (new_account name hash admin now d))
      × (is_taken (new_account name hash admin now d) db ≡ false)

  draw_identity-Added :
      (draws : List Draw) (acc : Account) (db db' : Db)
      → draw_identity name hash admin now draws db ≡ (ok acc, db')
      → Added acc db db'
  unfolding draw_identity find?
  draw_identity-Added [] acc db db' h = absurd (ground arith)
  draw_identity-Added (d ∷ ds) acc db db' h =
      elim (Bool-cases (is_taken (new_account name hash admin now d) db)) [
        | inl taken ↦ draw_identity-Added ds acc db db' (ground arith)
        | inr free ↦ (d, ground arith, ground arith, free)
      ]

module _ (kdf : Kdf) (salt : Bytes) (display_name password : String) (admin : Bool)
    (draws : List Draw) (now : ℕ) where
  created :
      (acc : Account) (db db' : Db)
      → create_account kdf salt display_name password admin draws now db ≡ (ok acc, db')
      → (hash : String) × (hash_password kdf salt password ≡ some hash)
        × (is_bad_name (strip display_name) ≡ false)
        × Added (strip display_name) hash admin now acc db db'
  unfolding create_account
  created acc db db' h = elim (Option-cases (hash_password kdf salt password)) [
    | inl short ↦ absurd (ground arith)
    | inr (hash, e) ↦ (
      hash,
      e,
      ground arith,
      draw_identity-Added (strip display_name) hash admin now (take 128 draws) acc db db' (
          rollback-ok db db' acc
            (draw_identity (strip display_name) hash admin now (take 128 draws) db) (ground arith)),
    )
  ]

  -- A creation that succeeds finds a number of eight digits that no account had, and adds one enabled
  -- account with it, with the stripped name, which is not a bad one, and the hash of the password; what
  -- it returns is that account.
  pub create_account_new :
      (acc : Account) (db db' : Db)
      → create_account kdf salt display_name password admin draws now db ≡ (ok acc, db')
      → (row : AccountRow) × (db'.accounts ≡ row ∷ db.accounts)
        × (acc ≡ account_of row)
        × (count_where (has_identity row.identity) db.accounts ≡ 0)
        × (10_000_000 ≤ row.identity)
        × (row.identity ≤ 99_999_999)
        × (row.enabled ≡ true)
        × (row.display_name ≡ strip display_name)
        × (is_bad_name row.display_name ≡ false)
        × (some row.password_hash ≡ hash_password kdf salt password)
  create_account_new acc db db' h =
      let c = created acc db db' h in
      let d = c.3.0 in
      let row = new_account (strip display_name) c.0 admin now d in
      (
        row,
        ground arith,
        ground arith,
        none_counted row.id row.identity db.accounts (ground arith),
        omega arith,
        ground arith,
        refl,
        refl,
        c.2,
        ground arith,
      )

-- A login by password that succeeds was for an enabled account with that number, whose stored hash the
-- password fits; it changes nothing.
pub authenticate_sound :
    (crypto : Crypto) (kdf : Kdf) (identity password : String) (acc : Account) (db db' : Db)
    → authenticate crypto kdf identity password db ≡ (ok (some acc), db')
    → (row : AccountRow) × (find? (has_identity (digits_value 0 identity)) db.accounts ≡ some row)
      × (acc ≡ account_of row)
      × (row.enabled ≡ true)
      × (verify_password crypto kdf password (some row.password_hash) ≡ true)
      × (db' ≡ db)
unfolding authenticate
authenticate_sound crypto kdf identity password acc db db' h =
    elim (Option-cases (find? (has_identity (digits_value 0 identity)) db.accounts)) [
      | inl gone ↦ absurd (ground arith)
      | inr (row, found) ↦ (row, found, ground arith, ground arith, ground arith, ground arith)
    ]
