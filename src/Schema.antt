-- ===== src/Schema.antt =====
-- The tables of storage.py (`_migrate`): a record for each row, and the database that holds them.
-- Times are whole seconds. A table is the list of its rows; where the code orders rows it says so.
pub mod Event
use home_assistant_chat_comp.Prelude.{ℕ, ℤ, String, Bool, Option, List}
use Event.{Receipted}

pub record AccountRow : Type 0 where
  pub id : String
  pub identity : ℕ
  pub display_name : String
  pub password_hash : String
  pub is_admin : Bool
  pub enabled : Bool
  pub created_at : ℕ

pub record SessionRow : Type 0 where
  pub token_hash : String
  pub account_id : String
  pub created_at : ℕ
  pub expires_at : ℕ
  pub last_seen_at : ℕ

pub record PeerRow : Type 0 where
  pub peer_id : String
  pub address : String
  pub port : ℕ
  pub shared_secret : String
  pub enabled : Bool
  pub created_at : ℕ

pub record NonceRow : Type 0 where
  pub peer_id : String
  pub nonce : String
  pub seen_at : ℤ

pub record TransportRow : Type 0 where
  pub peer_id : String
  pub use_tls : Bool
  pub tls_server_name : Option String

pub record DeviceRow : Type 0 where
  pub id : String
  pub account_id : String
  pub public_key : String
  pub label : String
  pub last_counter : ℕ
  pub revoked : Bool
  pub created_at : ℕ

pub record KeyPackageRow : Type 0 where
  pub package_id : String
  pub device_id : String
  pub package_json : String
  pub created_at : ℕ
  pub consumed_at : Option ℕ
  pub claimed_by : Option String

-- the states of a sent event
pub data State : Type 0 where
  queued accepted delivered read failed : State

pub record SentRow : Type 0 where
  pub event_id : String
  pub account_id : String
  pub client_event_id : String
  pub target : String
  pub event_json : String
  pub state : State
  pub created_at : ℕ
  pub updated_at : ℕ

pub record InboxRow : Type 0 where
  pub event_id : String
  pub recipient_account_id : String
  pub origin_server_id : String
  pub event_json : String
  pub accepted_at : ℕ
  pub delivered_at : Option ℕ
  pub read_at : Option ℕ

pub record OutboxRow : Type 0 where
  pub event_id : String
  pub peer_id : String
  pub event_json : String
  pub attempts : ℕ
  pub next_attempt_at : ℕ
  pub last_error : Option String

pub record RouteRow : Type 0 where
  pub event_id : String
  pub peer_id : String

pub record ReceiptRow : Type 0 where
  pub receipt_id : String
  pub event_id : String
  pub state : Receipted
  pub peer_id : String
  pub receipt_json : String
  pub attempts : ℕ
  pub next_attempt_at : ℕ
  pub last_error : Option String

pub record Db : Type 0 where
  pub server_id : String
  pub accounts : List AccountRow
  pub sessions : List SessionRow
  pub peers : List PeerRow
  pub nonces : List NonceRow
  pub transports : List TransportRow
  pub devices : List DeviceRow
  pub key_packages : List KeyPackageRow
  pub sent : List SentRow
  pub inbox : List InboxRow
  pub outbox : List OutboxRow
  pub routes : List RouteRow
  pub receipts : List ReceiptRow
