-- ===== src/Events.antt =====
-- events.py: the validation of what clients and peers send, and the construction of events.
pub mod RoundTrip
use Prim.Native.String.{◌++◌}
use home_assistant_chat_comp.Prelude.{
  ℕ, ℤ, ◌+◌, Bool, false, ◌||◌, not, Option, none, some, String, List, [], ◌∷◌, ltb, leb, pos_part,
  neg_part, str_eq, if◌then◌else◌,
}
use home_assistant_chat_comp.Text.{is_digit, between, repeated}
use home_assistant_chat_comp.Text.Parts.{after_prefix}
use home_assistant_chat_comp.Protocol.{message_protocol, message_ttl_seconds}
use home_assistant_chat_comp.Schema.Event.{Envelope, Event, Receipt, Receipted}
use home_assistant_chat_comp.Address.{IpAddress, UserAddress, parse_user_address}
use home_assistant_chat_comp.Wire.{
  Value, text, array, object, as_text, as_int, as_object, is_text, text_of, value_of, has_exactly,
  Checked, valid, value_error, other_error, ◌>>=◌, ◌>>◌, reject_if, Codec,
}
use home_assistant_chat_comp.Wire.Envelope.{validate_client_id, bounded_int, validate_envelope}

-- `[0-9a-f]`
abbrev pub is_hex : ℕ → Bool
is_hex c = is_digit c || between b'a' b'f' c

-- `prefix` and 32 hexadecimal digits
unfoldable pub is_tagged_hex : String → String → Bool
unfolding after_prefix repeated
is_tagged_hex prefix s = elim (after_prefix prefix s) [
  | none ↦ false
  | some rest ↦ repeated is_hex 32 32 rest
]

abbrev pub is_server_id : String → Bool
is_server_id s = is_tagged_hex "srv_" s

abbrev pub is_event_id : String → Bool
is_event_id s = is_tagged_hex "evt_" s

-- the dataclass `ClientMessage`
pub record ClientMessage : Type 0 where
  pub client_event_id : String
  pub recipient : UserAddress
  pub ciphertext : String
  pub envelope : Envelope

abbrev pub message_keys : List String
message_keys = "client_event_id" ∷ "recipient" ∷ "ciphertext" ∷ "envelope" ∷ []

unfoldable pub validate_client_message :
    Codec → (String → Option IpAddress) → Value → Checked ClientMessage
unfolding validate_client_id parse_user_address validate_envelope
validate_client_message codec ip_address payload = elim (as_object payload) [
  | none ↦ value_error "invalid_message"
  | some fs ↦ do
    reject_if (not (has_exactly message_keys fs)) "invalid_message"
    client_event_id ← validate_client_id codec (value_of "client_event_id" fs)
    recipient ← parse_user_address ip_address (value_of "recipient" fs)
    envelope ← validate_envelope codec (value_of "ciphertext" fs) (value_of "envelope" fs)
    valid (record {
      client_event_id = client_event_id;
      recipient = recipient;
      ciphertext = text_of (value_of "ciphertext" fs);
      envelope = envelope;
    })
]

-- `build_federated_event`; `hex` is the text of a random UUID, drawn by the caller
unfoldable pub build_federated_event : String → ℕ → ClientMessage → String → ℕ → Event
build_federated_event server_id sender_number message hex now = record {
  version = message_protocol;
  event_id = "evt_" ++ hex;
  origin_server_id = server_id;
  client_event_id = message.client_event_id;
  kind = "direct_message";
  sender_number = sender_number;
  recipient_number = message.recipient.number;
  created_at = now;
  expires_at = now + message_ttl_seconds;
  ciphertext = message.ciphertext;
  envelope = message.envelope;
}

abbrev pub event_keys : List String
event_keys =
    "version" ∷ "event_id" ∷ "origin_server_id" ∷ "client_event_id" ∷ "kind" ∷ "sender_number"
    ∷ "recipient_number" ∷ "created_at" ∷ "expires_at" ∷ "ciphertext" ∷ "envelope" ∷ []

-- an integer and no `bool`, or the error
abbrev pub int_or : String → Value → Checked ℤ
int_or e value = elim (as_int value) [ none ↦ value_error e | some n ↦ valid n ]

-- `created > current + 300 or expires <= current or expires - created > MESSAGE_TTL_SECONDS`
abbrev pub is_bad_time : ℕ → ℤ → ℤ → Bool
is_bad_time now created expires =
    ltb (now + 300 + neg_part created) (pos_part created)
    || leb (pos_part expires) (now + neg_part expires)
    || ltb (message_ttl_seconds + pos_part created + neg_part expires)
        (pos_part expires + neg_part created)

-- `isinstance(value["event_id"], str)` and the shape of the id
unfoldable pub validate_event_id : String → Value → Checked String
unfolding is_tagged_hex
validate_event_id e value = elim (as_text value) [
  | none ↦ value_error e
  | some s ↦ do reject_if (not (is_event_id s)) e; valid s
]

-- The code returns the object that it was given; here its fields come back as an event. A time of
-- creation below zero passes only while the clock stands within 30 days of 1970, and comes back as 0.
unfoldable pub validate_federated_event : Codec → Value → String → ℕ → Checked Event
unfolding validate_event_id validate_client_id bounded_int validate_envelope is_tagged_hex
validate_federated_event codec value expected_origin now = elim (as_object value) [
  | none ↦ value_error "invalid_event"
  | some fs ↦ do
    reject_if (not (has_exactly event_keys fs)) "invalid_event"
    reject_if
        (not (is_text message_protocol (value_of "version" fs))
          || not (is_text "direct_message" (value_of "kind" fs)))
        "unsupported_event"
    reject_if
        (not (is_text expected_origin (value_of "origin_server_id" fs))
          || not (is_server_id expected_origin))
        "invalid_event_origin"
    event_id ← validate_event_id "invalid_event_id" (value_of "event_id" fs)
    client_event_id ← validate_client_id codec (value_of "client_event_id" fs)
    sender ←
        bounded_int 10_000_000 99_999_999 "invalid_event_identity" (value_of "sender_number" fs)
    recipient ←
        bounded_int 10_000_000 99_999_999 "invalid_event_identity" (value_of "recipient_number" fs)
    created ← int_or "invalid_event_time" (value_of "created_at" fs)
    expires ← int_or "invalid_event_time" (value_of "expires_at" fs)
    reject_if (is_bad_time now created expires) "invalid_event_time"
    envelope ← validate_envelope codec (value_of "ciphertext" fs) (value_of "envelope" fs)
    valid (record {
      version = message_protocol;
      event_id = event_id;
      origin_server_id = expected_origin;
      client_event_id = client_event_id;
      kind = "direct_message";
      sender_number = sender;
      recipient_number = recipient;
      created_at = pos_part created;
      expires_at = pos_part expires;
      ciphertext = text_of (value_of "ciphertext" fs);
      envelope = envelope;
    })
]

abbrev pub receipt_keys : List String
receipt_keys =
    "version" ∷ "receipt_id" ∷ "event_id" ∷ "state" ∷ "recipient_number" ∷ "created_at" ∷ []

-- `value["state"] not in {"delivered", "read"}`: a list or an object has no hash, which is a `TypeError`
unfoldable pub validate_state : String → Value → Checked Receipted
validate_state e (array _) = other_error
validate_state e (object _) = other_error
validate_state e (text s) =
    if str_eq s "delivered"
    then valid Receipted.delivered
    else if str_eq s "read"
    then valid Receipted.read
    else value_error e
validate_state e _ = value_error e

unfoldable pub is_receipt_id : Value → Bool
unfolding is_tagged_hex
is_receipt_id value = elim (as_text value) [ none ↦ false | some s ↦ is_tagged_hex "rcp_" s ]

-- `created > current + 300 or current - created > MESSAGE_TTL_SECONDS`
abbrev pub is_bad_receipt_time : ℕ → ℤ → Bool
is_bad_receipt_time now created =
    ltb (now + 300 + neg_part created) (pos_part created)
    || ltb (message_ttl_seconds + pos_part created) (now + neg_part created)

-- As for events, a time below zero, within 30 days of 1970, comes back as 0.
unfoldable pub validate_receipt : Value → ℕ → Checked Receipt
unfolding is_receipt_id validate_event_id validate_state bounded_int is_tagged_hex
validate_receipt value now = elim (as_object value) [
  | none ↦ value_error "invalid_receipt"
  | some fs ↦ do
    reject_if (not (has_exactly receipt_keys fs)) "invalid_receipt"
    reject_if (not (is_text message_protocol (value_of "version" fs))) "invalid_receipt"
    reject_if (not (is_receipt_id (value_of "receipt_id" fs))) "invalid_receipt"
    event_id ← validate_event_id "invalid_receipt" (value_of "event_id" fs)
    state ← validate_state "invalid_receipt" (value_of "state" fs)
    number ← bounded_int 10_000_000 99_999_999 "invalid_receipt" (value_of "recipient_number" fs)
    created ← int_or "invalid_receipt" (value_of "created_at" fs)
    reject_if (is_bad_receipt_time now created) "invalid_receipt"
    valid (record {
      version = message_protocol;
      receipt_id = text_of (value_of "receipt_id" fs);
      event_id = event_id;
      state = state;
      recipient_number = number;
      created_at = pos_part created;
    })
]
