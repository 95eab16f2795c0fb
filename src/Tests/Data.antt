-- ===== src/Tests/Data.antt =====
-- A small server: two accounts, a device, a peer, and a message to send.
use home_assistant_chat_comp.Prelude.{ℕ, String, Option, none, true, false, [], ◌∷◌}
use Prim.Native.String.{◌++◌}
use home_assistant_chat_comp.Schema.{Db, AccountRow, PeerRow, DeviceRow}
use home_assistant_chat_comp.Schema.Event.{Json, Event, Envelope, Receipt, Receipted}
use home_assistant_chat_comp.Store.Outgoing.{Outgoing}

abbrev pub alice : AccountRow
alice = record {
  id = "alice";
  identity = 11111111;
  display_name = "Alice";
  password_hash = "scrypt";
  is_admin = true;
  enabled = true;
  created_at = 1;
}

abbrev pub bob : AccountRow
bob = record {
  id = "bob";
  identity = 22222222;
  display_name = "Bob";
  password_hash = "scrypt";
  is_admin = false;
  enabled = true;
  created_at = 2;
}

abbrev pub remote : PeerRow
remote = record {
  peer_id = "srv_b";
  address = "10.0.0.2";
  port = 8211;
  shared_secret = "secret";
  enabled = true;
  created_at = 3;
}

abbrev pub phone : DeviceRow
phone = record {
  id = "phone";
  account_id = "alice";
  public_key = "key";
  label = "Phone";
  last_counter = 4;
  revoked = false;
  created_at = 4;
}

abbrev pub db : Db
db = record {
  server_id = "srv_a";
  accounts = alice ∷ bob ∷ [];
  sessions = [];
  peers = remote ∷ [];
  nonces = [];
  transports = [];
  devices = phone ∷ [];
  key_packages = [];
  sent = [];
  inbox = [];
  outbox = [];
  routes = [];
  receipts = [];
}

abbrev pub envelope : ℕ → Envelope
envelope counter = record {
  version = "ha-chat/2";
  device_id = "phone";
  counter = counter;
  nonce = "n";
  key_id = "k";
  aad = "a";
  key_commitment = none;
}

-- a message of Alice to Bob, under an event id
abbrev pub message : String → Event
message id = record {
  version = "ha-chat/2";
  event_id = id;
  origin_server_id = "srv_a";
  client_event_id = "c1";
  kind = "direct_message";
  sender_number = 11111111;
  recipient_number = 22222222;
  created_at = 1000;
  expires_at = 2000;
  ciphertext = "xx";
  envelope = envelope 5;
}

abbrev pub receipt : Receipted → Receipt
receipt state = record {
  version = "ha-chat/2";
  receipt_id = "rcp_1";
  event_id = "evt_1";
  state = state;
  recipient_number = 22222222;
  created_at = 1000;
}

-- A codec that keeps what the runs below look at.
abbrev pub json : Json
json = record {
  dumps = λ e. "event " ++ e.event_id;
  loads = λ _. message "evt_1";
  dumps_receipt = λ r. "receipt " ++ r.receipt_id;
  loads_receipt = λ _. receipt Receipted.read;
  dumps_package = λ p. p.payload;
  loads_package = λ t. record { package_id = "p"; payload = t };
  extract_expires_at = λ _. 2000;
  extract_created_at = λ _. 1000;
}

-- Alice's request to send the message, to Bob on this server or through the peer
abbrev pub request : String → Option ℕ → Option String → Outgoing
request id local peer = record {
  account_id = "alice";
  device_id = "phone";
  counter = 5;
  client_event_id = "c1";
  target = "22222222";
  event = message id;
  local_recipient = local;
  peer_id = peer;
}
