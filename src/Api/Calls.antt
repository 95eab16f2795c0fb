-- ===== src/Api/Calls.antt =====
-- A handler reads and writes the database through the calls of the store alone: the relation that says
-- so.
pub mod Endpoints
pub mod Planes
pub mod Rules
use home_assistant_chat_comp.Prelude.{
  ℕ, ℤ, String, Bool, true, false, Option, none, some, List, ◌≡◌, refl, arith, if◌then◌else◌,
}
use mathlib.Core.Path.{subst}
use home_assistant_chat_comp.Schema.{Db}
use home_assistant_chat_comp.Schema.Event.{KeyPackage}
use home_assistant_chat_comp.Exec.{Method, Result, ok, err}
use home_assistant_chat_comp.Exec.Messages.{message_of}
use home_assistant_chat_comp.Store.Accounts.{authenticate}
use home_assistant_chat_comp.Store.Sessions.{account_for_token, create_session, revoke_session}
use home_assistant_chat_comp.Store.Devices.{register_device}
use home_assistant_chat_comp.Store.KeyPackages.{add_key_packages, claim_device_packages}
use home_assistant_chat_comp.Store.Nonces.{record_federation_nonce}
use home_assistant_chat_comp.Store.Outbox.{
  mark_receipt_outbox_delivered, mark_receipt_outbox_failed,
}
use home_assistant_chat_comp.Store.Quota.{Step}
use home_assistant_chat_comp.Wire.{
  Value, Checked, valid, value_error, other_error, Loaded, loaded, decode_error, number_error,
  load_error, Octets, Codec, as_object,
}
use home_assistant_chat_comp.Api.Http.{
  Library, Server, Outcome, done, api_error, crashed, disconnected, Handler, finish, fail, crash,
  disconnect, fail_if, require, call, uncaught, ◌>>=◌, ◌>>◌, admit_general, admit_login, Reply,
  reply, checked, loads, fail_with, caught, parse_json, all_texts, json_object, arrived,
  HttpRequest, read_body, resume,
}

-- One call of the store that writes, by a handler or the dispatcher. `Seen` holds of the readings of the
-- clock with which nonces are recorded, `Drawn` of the tokens that are drawn.
pub data Call (lib : Library) (Seen : ℕ → Type 0) (Drawn : String → Type 0) (db : Db)
    : Db → Type 0 where
  event_call : {db' : Db} → Step lib.json db db' → Call lib Seen Drawn db db'
  looked_up :
      (token : String) (now : ℕ)
      → Call lib Seen Drawn db (account_for_token lib.token_digest token now db).1
  logged_in :
      (account_id : String) (lifetime : ℕ) (token : String) (now : ℕ)
      → Drawn token
      → Call lib Seen Drawn db (create_session lib.token_digest account_id lifetime token now db).1
  logged_out :
      (token : String) → Call lib Seen Drawn db (revoke_session lib.token_digest token db).1
  registered :
      (account_id device_id public_key label : String) (now : ℕ)
      → Call lib Seen Drawn db (register_device account_id device_id public_key label now db).1
  uploaded :
      (account_id device_id : String) (packages : List KeyPackage) (now : ℕ)
      → Call lib Seen Drawn db (add_key_packages lib.json account_id device_id packages now db).1
  claimed :
      (identity : ℕ) (claimant : String) (now : ℕ)
      → Call lib Seen Drawn db (claim_device_packages lib.json identity claimant now db).1
  receipt_sent :
      (receipt_id : String) → Call lib Seen Drawn db (mark_receipt_outbox_delivered receipt_id db).1
  receipt_put_off :
      (receipt_id : String) (attempts : ℕ) (error : String) (now : ℕ)
      → Call lib Seen Drawn db (mark_receipt_outbox_failed receipt_id attempts error now db).1
  recorded :
      (peer_id nonce : String) (t : ℤ) (now : ℕ)
      → Seen now
      → Call lib Seen Drawn db (record_federation_nonce peer_id nonce t now db).1

-- The databases that calls of the store lead to.
pub data Runs (lib : Library) (Seen : ℕ → Type 0) (Drawn : String → Type 0) (db : Db)
    : Db → Type 0 where
  here : Runs lib Seen Drawn db db
  next :
      {db' db'' : Db}
      → Runs lib Seen Drawn db db'
      → Call lib Seen Drawn db' db''
      → Runs lib Seen Drawn db db''

module _ (lib : Library) (Seen : ℕ → Type 0) (Drawn : String → Type 0) where
  pub Runs-trans :
      {db db' db'' : Db}
      → Runs lib Seen Drawn db db'
      → Runs lib Seen Drawn db' db''
      → Runs lib Seen Drawn db db''
  Runs-trans r here = r
  Runs-trans r (next q c) = next (Runs-trans r q) c

  -- Whatever the state, the handler leaves a database that calls of the store lead to.
  pub record Keeps {A : Type 0} (m : Handler A) : Type 0 where
    pub run : (s : Server) → Runs lib Seen Drawn s.db (m s).1.db
