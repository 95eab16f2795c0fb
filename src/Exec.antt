-- ===== src/Exec.antt =====
-- Methods of the store: they read and write the database and may raise. What was written before a
-- raise stays written, unless the method runs inside a transaction.
pub mod Messages
use home_assistant_chat_comp.Prelude.{arith, Bool, ◌≡◌, refl, ◌⊎◌, inl, inr, if◌then◌else◌}
use home_assistant_chat_comp.Schema.{Db}

-- The messages of the exceptions. `integrity_error` is `sqlite3.IntegrityError`.
pub data Error : Type 0 where
  integrity_error invalid_display_name password_must_be_12_to_1024_bytes : Error
  identity_space_exhausted invalid_peer_id invalid_ipv4_address invalid_peer_port : Error
  invalid_tls_server_name tls_name_requires_tls invalid_peer_secret peer_already_exists : Error
  peer_endpoint_conflict invalid_device_label device_key_conflict device_revoked : Error
  device_limit invalid_key_packages unknown_device key_package_limit key_package_conflict : Error
  invalid_key_package_claimant event_quota_exceeded invalid_route idempotency_conflict : Error
  replayed_message recipient_not_found event_conflict invalid_limit event_not_found : Error
  receipt_conflict : Error

pub data Result (A : Type 0) : Type 0 where
  ok : A → Result A
  err : Error → Result A

abbrev pub Method : Type 0 → Type 0
Method A = Db → Result A × Db

module _ {A : Type 0} where
  abbrev pub pure : A → Method A
  pure a db = (ok a, db)

  abbrev pub raise : Error → Method A
  raise e db = (err e, db)

  abbrev pub gets : (Db → A) → Method A
  gets f db = (ok (f db), db)

  -- `ROLLBACK` on an exception
  abbrev pub rollback : Db → Result A × Db → Result A × Db
  rollback db (ok a, db') = (ok a, db')
  rollback db (err e, _) = (err e, db)

  -- `BEGIN IMMEDIATE ... COMMIT`
  abbrev pub transaction : Method A → Method A
  transaction m db = rollback db (m db)

abbrev pub modify : (Db → Db) → Method (Unit {0})
modify f db = (ok tt, f db)

abbrev pub raise_if : Bool → Error → Method (Unit {0})
raise_if c e db = (if c then err e else ok tt, db)

abbrev pub continue : {A B : Type 0} → Result A × Db → (A → Method B) → Result B × Db
continue (ok a, db) f = f a db
continue (err e, db) f = (err e, db)

infixl 5 ◌>>=◌ ◌>>◌
abbrev pub ◌>>=◌ : {A B : Type 0} → Method A → (A → Method B) → Method B
◌>>=◌ m f db = continue (m db) f

abbrev pub ◌>>◌ : {B : Type 0} → Method (Unit {0}) → Method B → Method B
m >> k = m >>= λ _. k

-- A call returned, or it raised.
pub Result-cases :
    {A : Type 0} (r : Result A × Db)
    → ((x : A) × (db : Db) × (r ≡ (ok x, db))) ⊎ ((e : Error) × (db : Db) × (r ≡ (err e, db)))
Result-cases (ok x, db) = inl (x, db, refl)
Result-cases (err e, db) = inr (e, db, refl)

-- What a transaction returned, its body returned.
pub rollback-ok :
    {A : Type 0} (db db' : Db) (x : A) (r : Result A × Db)
    → rollback db r ≡ (ok x, db')
    → r ≡ (ok x, db')
rollback-ok db db' x (ok y, db'') h = h
rollback-ok db db' x (err e, db'') h = absurd (ground arith)
