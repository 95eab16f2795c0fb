-- ===== src/Api/History/Quota.antt =====
-- No history takes an account beyond its quota.
use home_assistant_chat_comp.Prelude.{ℕ, String, ◌≡◌, arith}
use home_assistant_chat_comp.Schema.{Db}
use home_assistant_chat_comp.Store.Quota.{WithinQuota, Step-WithinQuota}
use home_assistant_chat_comp.Store.Frame.Others.{
  register_device-IsApart, add_key_packages-IsAside, claim_device_packages-IsAside,
  mark_receipt_outbox_delivered-IsAside, mark_receipt_outbox_failed-IsAside,
  account_for_token-IsLogin, create_session-IsLogin, revoke_session-IsLogin,
  record_federation_nonce-aside,
}
use home_assistant_chat_comp.Api.Http.{Library}
use home_assistant_chat_comp.Api.Calls.{
  Call, event_call, looked_up, logged_in, logged_out, registered, uploaded, claimed, receipt_sent,
  receipt_put_off, recorded, Runs, here, next,
}
use home_assistant_chat_comp.Api.History.{History, History-Runs}

same-WithinQuota :
    (a : String) (db db' : Db)
    → db'.sent ≡ db.sent
    → db'.inbox ≡ db.inbox
    → WithinQuota a db
    → WithinQuota a db'
same-WithinQuota a db db' s i w = ground arith

module _ (lib : Library) (Seen : ℕ → Type 0) (Drawn : String → Type 0) (a : String) where
  Call-WithinQuota :
      {db db' : Db} → Call lib Seen Drawn db db' → WithinQuota a db → WithinQuota a db'
  Call-WithinQuota (event_call step) w = Step-WithinQuota a step w
  Call-WithinQuota {db} (looked_up token now) w =
      let f = account_for_token-IsLogin lib.token_digest token now db in
      same-WithinQuota a db _ f.sent f.inbox w
  Call-WithinQuota {db} (logged_in id lifetime token now d) w =
      let f = create_session-IsLogin lib.token_digest id lifetime token now db in
      same-WithinQuota a db _ f.sent f.inbox w
  Call-WithinQuota {db} (logged_out token) w =
      let f = revoke_session-IsLogin lib.token_digest token db in
      same-WithinQuota a db _ f.sent f.inbox w
  Call-WithinQuota {db} (registered account device key label now) w =
      let f = register_device-IsApart account device key label now db in
      same-WithinQuota a db _ f.sent f.inbox w
  Call-WithinQuota {db} (uploaded account device ps now) w =
      let f = add_key_packages-IsAside lib.json account device ps now db in
      same-WithinQuota a db _ f.sent f.inbox w
  Call-WithinQuota {db} (claimed identity claimant now) w =
      let f = claim_device_packages-IsAside lib.json identity claimant now db in
      same-WithinQuota a db _ f.sent f.inbox w
  Call-WithinQuota {db} (receipt_sent id) w =
      let f = mark_receipt_outbox_delivered-IsAside id db in
      same-WithinQuota a db _ f.sent f.inbox w
  Call-WithinQuota {db} (receipt_put_off id attempts error now) w =
      let f = mark_receipt_outbox_failed-IsAside id attempts error now db in
      same-WithinQuota a db _ f.sent f.inbox w
  Call-WithinQuota {db} (recorded p n t now seen) w =
      let f = record_federation_nonce-aside p n t now db in same-WithinQuota a db _ f.0 f.1 w

  Runs-WithinQuota :
      {db db' : Db} → Runs lib Seen Drawn db db' → WithinQuota a db → WithinQuota a db'
  Runs-WithinQuota here w = w
  Runs-WithinQuota (next r c) w = Call-WithinQuota c (Runs-WithinQuota r w)

  -- Whatever requests come to the two planes, and whatever the dispatcher and other threads do between
  -- them, an account that is within its quota stays within it.
  pub History-WithinQuota :
      {db db' : Db} → History lib Seen Drawn db db' → WithinQuota a db → WithinQuota a db'
  History-WithinQuota h w = Runs-WithinQuota (History-Runs lib Seen Drawn h) w
