-- ===== src/Store/Frame/Others.antt =====
-- What the methods on devices, key packages, sessions and nonces leave alone.
use home_assistant_chat_comp.Prelude.{
  ℕ, ℤ, String, ◌≡◌, ◌≢◌, refl, eq_iff, leb, Bool, false, List, [], ◌∷◌, arith, find?, any_row,
  update_where, Option-cases, inl, inr, str_eq,
}
use home_assistant_chat_comp.Schema.{Db, DeviceRow, SessionRow}
use home_assistant_chat_comp.Schema.Event.{Json, KeyPackage}
use home_assistant_chat_comp.Store.Sessions.{
  session_account, account_for_token, create_session, revoke_session,
}
use home_assistant_chat_comp.Store.Devices.{register_device, enroll, confirm}
use home_assistant_chat_comp.Store.KeyPackages.{
  is_package, add_package, add_each, add_key_packages, claim_device_packages,
}
use home_assistant_chat_comp.Store.Frame.{any_row-delete_false}
use home_assistant_chat_comp.Store.Outbox.{
  mark_receipt_outbox_delivered, mark_receipt_outbox_failed,
}
use home_assistant_chat_comp.Store.Nonces.{record_federation_nonce}

-- The tables of events, of sessions and of nonces are the same.
pub record IsApart (db db' : Db) : Type 0 where
  pub sent : db'.sent ≡ db.sent
  pub inbox : db'.inbox ≡ db.inbox
  pub sessions : db'.sessions ≡ db.sessions
  pub nonces : db'.nonces ≡ db.nonces

-- the same, and the devices
pub record IsAside (db db' : Db) : Type 0 where
  pub devices : db'.devices ≡ db.devices
  pub sent : db'.sent ≡ db.sent
  pub inbox : db'.inbox ≡ db.inbox
  pub sessions : db'.sessions ≡ db.sessions
  pub nonces : db'.nonces ≡ db.nonces

IsAside-trans : (a b c : Db) → IsAside a b → IsAside b c → IsAside a c
IsAside-trans a b c p r = ground arith

pub register_device-IsApart :
    (account device key label : String) (now : ℕ) (db : Db)
    → IsApart db (register_device account device key label now db).1
unfolding register_device enroll confirm
register_device-IsApart account device key label now db =
    elim (Option-cases (find? (λ (d : DeviceRow). str_eq d.id device) db.devices)) [
      | inl fresh ↦ ground arith
      | inr (d, found) ↦ ground arith
    ]

module _ (json : Json) where
  add_package-IsAside :
      (device : String) (now : ℕ) (p : KeyPackage) (db : Db)
      → IsAside db (add_package json device now p db).1
  unfolding add_package
  add_package-IsAside device now p db =
      elim (Option-cases (find? (is_package p.package_id) db.key_packages)) [
        | inl fresh ↦ ground arith
        | inr (k, found) ↦ ground arith
      ]

  add_each-IsAside :
      (device : String) (now : ℕ) (ps : List KeyPackage) (db : Db)
      → IsAside db (add_each json device now ps db).1
  unfolding add_each
  add_each-IsAside device now [] db = ground arith
  add_each-IsAside device now (p ∷ ps) db = ground (
    arith,
    add_package-IsAside device now p db,
    add_each-IsAside device now ps (add_package json device now p db).1,
  )

  pub add_key_packages-IsAside :
      (account device : String) (ps : List KeyPackage) (now : ℕ) (db : Db)
      → IsAside db (add_key_packages json account device ps now db).1
  unfolding add_key_packages
  add_key_packages-IsAside account device ps now db =
      ground (arith, add_each-IsAside device now ps db)

  pub claim_device_packages-IsAside :
      (identity : ℕ) (claimant : String) (now : ℕ) (db : Db)
      → IsAside db (claim_device_packages json identity claimant now db).1
  unfolding claim_device_packages
  claim_device_packages-IsAside identity claimant now db = ground arith

-- A change of the time of the last use makes no session fit that did not.
any_row-touch :
    (q p : SessionRow → Bool) (now : ℕ) (rows : List SessionRow)
    → ((s : SessionRow) → q (record s { last_seen_at = now }) ≡ q s)
    → any_row q (update_where p (λ s. record s { last_seen_at = now }) rows) ≡ any_row q rows
unfolding any_row update_where
any_row-touch q p now [] h = refl
any_row-touch q p now (r ∷ rows) h = ground (arith, h r, any_row-touch q p now rows h)

-- The tables of events, of devices and of nonces are the same.
pub record IsLogin (db db' : Db) : Type 0 where
  pub devices : db'.devices ≡ db.devices
  pub sent : db'.sent ≡ db.sent
  pub inbox : db'.inbox ≡ db.inbox
  pub nonces : db'.nonces ≡ db.nonces

-- No session has the digest.
abbrev pub IsAbsent : String → Db → Type 0
IsAbsent digest db = any_row (λ (s : SessionRow). str_eq s.token_hash digest) db.sessions ≡ false

module _ (token_digest : String → String) where
  pub account_for_token-IsLogin :
      (token : String) (now : ℕ) (db : Db)
      → IsLogin db (account_for_token token_digest token now db).1
  unfolding account_for_token
  account_for_token-IsLogin token now db =
      elim (Option-cases (session_account (token_digest token) now db)) [
        | inl gone ↦ ground arith
        | inr (row, found) ↦ ground arith
      ]

  pub create_session-IsLogin :
      (id : String) (lifetime : ℕ) (token : String) (now : ℕ) (db : Db)
      → IsLogin db (create_session token_digest id lifetime token now db).1
  unfolding create_session
  create_session-IsLogin id lifetime token now db = ground arith

  pub revoke_session-IsLogin :
      (token : String) (db : Db) → IsLogin db (revoke_session token_digest token db).1
  unfolding revoke_session
  revoke_session-IsLogin token db = ground arith

  module _ (digest : String) where
    pub account_for_token-IsAbsent :
        (token : String) (now : ℕ) (db : Db)
        → IsAbsent digest db
        → IsAbsent digest (account_for_token token_digest token now db).1
    unfolding account_for_token
    account_for_token-IsAbsent token now db h =
        elim (Option-cases (session_account (token_digest token) now db)) [
          | inl gone ↦ ground arith
          | inr (row, found) ↦ ground (
            arith,
            any_row-touch (λ (s : SessionRow). str_eq s.token_hash digest)
                (λ s. str_eq s.token_hash (token_digest token)) now db.sessions (λ s. refl),
          )
        ]

    pub create_session-IsAbsent :
        (id : String) (lifetime : ℕ) (token : String) (now : ℕ) (db : Db)
        → token_digest token ≢ digest
        → IsAbsent digest db
        → IsAbsent digest (create_session token_digest id lifetime token now db).1
    unfolding create_session any_row
    create_session-IsAbsent id lifetime token now db ne h = ground (
      arith,
      eq_iff (token_digest token) digest,
      any_row-delete_false (λ (s : SessionRow). str_eq s.token_hash digest)
          (λ (s : SessionRow). leb s.expires_at now) db.sessions h,
    )

    pub revoke_session-IsAbsent :
        (token : String) (db : Db)
        → IsAbsent digest db
        → IsAbsent digest (revoke_session token_digest token db).1
    unfolding revoke_session
    revoke_session-IsAbsent token db h = ground (
      arith,
      any_row-delete_false (λ (s : SessionRow). str_eq s.token_hash digest)
          (λ (s : SessionRow). str_eq s.token_hash (token_digest token)) db.sessions h,
    )

-- The marks of the receipts' outbox write that outbox alone.
pub mark_receipt_outbox_delivered-IsAside :
    (id : String) (db : Db) → IsAside db (mark_receipt_outbox_delivered id db).1
unfolding mark_receipt_outbox_delivered
mark_receipt_outbox_delivered-IsAside id db = ground arith

pub mark_receipt_outbox_failed-IsAside :
    (id : String) (attempts : ℕ) (error : String) (now : ℕ) (db : Db)
    → IsAside db (mark_receipt_outbox_failed id attempts error now db).1
unfolding mark_receipt_outbox_failed
mark_receipt_outbox_failed-IsAside id attempts error now db = ground arith

pub record_federation_nonce-aside :
    (p n : String) (t : ℤ) (now : ℕ) (db : Db)
    → ((record_federation_nonce p n t now db).1.sent ≡ db.sent)
      × ((record_federation_nonce p n t now db).1.inbox ≡ db.inbox)
      × ((record_federation_nonce p n t now db).1.sessions ≡ db.sessions)
unfolding record_federation_nonce
record_federation_nonce-aside p n t now db = ground arith

pub record_federation_nonce-devices :
    (p n : String) (t : ℤ) (now : ℕ) (db : Db)
    → (record_federation_nonce p n t now db).1.devices ≡ db.devices
unfolding record_federation_nonce
record_federation_nonce-devices p n t now db = ground arith
