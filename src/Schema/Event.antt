-- ===== src/Schema/Event.antt =====
-- The JSON objects that the store keeps as text: events (`build_federated_event` in events.py),
-- receipts (`_queue_receipt_locked` in storage.py) and key packages.
use home_assistant_chat_comp.Prelude.{
  ℕ, String, Option, Bool, none, some, true, false, ◌&&◌, ◌==◌, str_eq,
}

-- the two states that a receipt reports
pub data Receipted : Type 0 where
  delivered read : Receipted

pub record Envelope : Type 0 where
  pub version : String
  pub device_id : String
  pub counter : ℕ
  pub nonce : String
  pub key_id : String
  pub aad : String
  pub key_commitment : Option String

pub record Event : Type 0 where
  pub version : String
  pub event_id : String
  pub origin_server_id : String
  pub client_event_id : String
  pub kind : String
  pub sender_number : ℕ
  pub recipient_number : ℕ
  pub created_at : ℕ
  pub expires_at : ℕ
  pub ciphertext : String
  pub envelope : Envelope

-- a receipt that is sent back to the origin of an event; its state is the reported one
pub record Receipt : Type 0 where
  pub version : String
  pub receipt_id : String
  pub event_id : String
  pub state : Receipted
  pub recipient_number : ℕ
  pub created_at : ℕ

-- a one-time key package of a device
pub record KeyPackage : Type 0 where
  pub package_id : String
  pub payload : String

-- `json` and SQLite's JSON functions, which the program only calls: `json.dumps` with sorted keys,
-- `json.loads`, and `CAST(json_extract(text, '$.field') AS INTEGER)`.
pub record Json : Type 0 where
  pub dumps : Event → String
  pub loads : String → Event
  pub dumps_receipt : Receipt → String
  pub loads_receipt : String → Receipt
  pub dumps_package : KeyPackage → String
  pub loads_package : String → KeyPackage
  pub extract_expires_at : String → ℕ
  pub extract_created_at : String → ℕ

-- `==` on an optional text
abbrev pub opt_eq : Option String → Option String → Bool
opt_eq none none = true
opt_eq (some a) (some b) = str_eq a b
opt_eq _ _ = false

-- `==` on the envelope objects
pub envelope_eq : Envelope → Envelope → Bool
envelope_eq a b =
    str_eq a.version b.version
    && str_eq a.device_id b.device_id
    && a.counter == b.counter
    && str_eq a.nonce b.nonce
    && str_eq a.key_id b.key_id
    && str_eq a.aad b.aad
    && opt_eq a.key_commitment b.key_commitment

-- the fields that a retried message must repeat: `comparable` in `create_outgoing_event`
unfoldable pub comparable : Event → Event → Bool
unfolding envelope_eq
comparable prior event =
    str_eq prior.origin_server_id event.origin_server_id
    && str_eq prior.client_event_id event.client_event_id
    && str_eq prior.kind event.kind
    && prior.sender_number == event.sender_number
    && prior.recipient_number == event.recipient_number
    && str_eq prior.ciphertext event.ciphertext
    && envelope_eq prior.envelope event.envelope
