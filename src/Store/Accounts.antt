-- ===== src/Store/Accounts.antt =====
-- `create_account` and `authenticate`. The random ids, numbers and salts are arguments.
pub mod Laws
use Prim.Native.Char.{code}
use Prim.Native.String.{[], ◌∷◌, count, len}
use home_assistant_chat_comp.Prelude.{
  ℕ, ◌+◌, ◌-◌, ◌*◌, String, Bool, true, false, ◌&&◌, ◌||◌, not, Option, none, some, ltb, leb, ◌==◌,
  str_eq, find?, any_row, if◌then◌else◌,
}
use home_assistant_chat_comp.Prelude
use home_assistant_chat_comp.Text.{is_digit, any_char, repeated, strip}
use home_assistant_chat_comp.Schema.{Db, AccountRow}
use home_assistant_chat_comp.Exec.{
  Method, pure, raise, gets, modify, raise_if, transaction, identity_space_exhausted,
  invalid_display_name, password_must_be_12_to_1024_bytes, integrity_error, ◌>>=◌, ◌>>◌,
}
use home_assistant_chat_comp.Security.{Bytes, Crypto}
use home_assistant_chat_comp.Security.Passwords.{Kdf, hash_password, verify_password}
use home_assistant_chat_comp.Store.Sessions.{Account, account_of}

-- `WHERE identity = ?`, a unique key of `accounts`
abbrev pub has_identity : ℕ → AccountRow → Bool
has_identity identity a = a.identity == identity

-- `not display_name or len(display_name) > 80 or any(ord(char) < 32 ...)`, on the stripped name
unfoldable pub is_bad_name : String → Bool
unfolding any_char
is_bad_name name = str_eq name "" || ltb 80 (count name) || any_char (λ c. ltb c 32) name

-- one draw of the loop: an id, and a number below 90,000,000
pub record Draw : Type 0 where
  pub id : String
  pub number : ℕ

abbrev pub new_account : String → String → Bool → ℕ → Draw → AccountRow
new_account name hash admin now d = record {
  id = d.id;
  identity = d.number + 10_000_000;
  display_name = name;
  password_hash = hash;
  is_admin = admin;
  enabled = true;
  created_at = now;
}

-- the keys of the row are taken, or its number fails the check of the column
abbrev pub is_taken : AccountRow → Db → Bool
is_taken row db =
    any_row (λ (a : AccountRow). str_eq a.id row.id || has_identity row.identity a) db.accounts
    || not (leb row.identity 99_999_999)

-- the loop over the draws
unfoldable pub draw_identity : String → String → Bool → ℕ → Prelude.List Draw → Method Account
draw_identity name hash admin now Prelude.[] = raise identity_space_exhausted
draw_identity name hash admin now (Prelude.◌∷◌ d ds) =
    let rest = draw_identity name hash admin now ds in
    let row = new_account name hash admin now d in
    do
      taken ← gets (is_taken row)
      if taken then rest else (do
        modify (λ db. record db { accounts = Prelude.◌∷◌ row db.accounts })
        found ← gets (λ db. find? (has_identity row.identity) db.accounts)
        elim found [ none ↦ raise integrity_error | some a ↦ pure (account_of a) ])

-- The salt and the draws are random; no more than 128 draws are used.
unfoldable pub create_account :
    Kdf → Bytes → String → String → Bool → Prelude.List Draw → ℕ → Method Account
create_account kdf salt display_name password admin draws now = do
  let name = strip display_name
  raise_if (is_bad_name name) invalid_display_name
  elim (hash_password kdf salt password) [
    | none ↦ raise password_must_be_12_to_1024_bytes
    | some h ↦ transaction (draw_identity name h admin now (Prelude.take 128 draws))
  ]

-- `int` of a text of digits
unfoldable pub digits_value : ℕ → String → ℕ
digits_value value [] = value
digits_value value (c ∷ s) = digits_value (value * 10 + (code c - b'0')) s

abbrev pub starts_nonzero : String → Bool
starts_nonzero [] = false
starts_nonzero (c ∷ s) = not (code c == b'0')

-- `[1-9][0-9]{7}`
unfoldable pub is_identity : String → Bool
unfolding repeated
is_identity identity = starts_nonzero identity && repeated is_digit 8 8 identity

-- The calls of `verify_password` whose result is not used are left out: they only take time.
unfoldable pub authenticate : Crypto → Kdf → String → String → Method (Option Account)
authenticate crypto kdf identity password db =
    if not (leb 1 (len password) && leb (len password) 1024) || not (is_identity identity)
    then pure none db
    else (let row = find? (has_identity (digits_value 0 identity)) db.accounts in
        let encoded : Option String = elim row [ none ↦ none | some a ↦ some a.password_hash ] in
        elim row [
          | none ↦ pure none db
          | some a ↦
              if not (verify_password crypto kdf password encoded) || not a.enabled
              then pure none db
              else pure (some (account_of a)) db
        ])
