-- ===== src/Protocol.antt =====
-- protocol.py: the wire-level constants.
use home_assistant_chat_comp.Prelude.{ℕ, ◌*◌, String, List, [], ◌∷◌}

abbrev pub message_protocol : String
message_protocol = "ha-chat/2"

abbrev pub client_protocol : String
client_protocol = "ha-chat-client/2"

abbrev pub federation_protocol : String
federation_protocol = "ha-chat-federation/2"

abbrev pub max_json_body : ℕ
max_json_body = 96 * 1024

abbrev pub max_ciphertext_bytes : ℕ
max_ciphertext_bytes = 48 * 1024

abbrev pub api_version : ℕ
api_version = 2

abbrev pub storage_schema_version : ℕ
storage_schema_version = 4

abbrev pub protocol_header : String
protocol_header = "X-HA-Chat-Protocol"

abbrev pub capabilities : List String
capabilities =
    "devices.p256.v1" ∷ "key-packages.opaque-reserved.v2" ∷ "direct-messages.opaque.v1"
    ∷ "receipts.explicit-delivered-read.v2" ∷ []

abbrev pub max_inbox_page : ℕ
max_inbox_page = 50

abbrev pub max_outbox_attempts : ℕ
max_outbox_attempts = 10_000

abbrev pub max_account_events : ℕ
max_account_events = 10_000

abbrev pub max_account_event_bytes : ℕ
max_account_event_bytes = 64 * 1024 * 1024

abbrev pub max_outbox_per_peer : ℕ
max_outbox_per_peer = 4

abbrev pub message_ttl_seconds : ℕ
message_ttl_seconds = 30 * 24 * 60 * 60

abbrev pub federation_clock_skew_seconds : ℕ
federation_clock_skew_seconds = 300

abbrev pub session_lifetime_seconds : ℕ
session_lifetime_seconds = 12 * 60 * 60
