-- ===== src/Tests/Wire.antt =====
-- What a server sends and another one reads, and a configuration.
use Prim.Native.String.{◌++◌}
use home_assistant_chat_comp.Prelude.{
  ℕ, String, none, some, true, ◌==◌, [], ◌∷◌, ◌≡◌, refl, arith, str_eq, length, if◌then◌else◌,
}
use home_assistant_chat_comp.Schema.Event.{Receipt, read}
use home_assistant_chat_comp.Text.{all_chars, any_char, repeated, first_chars, strip}
use home_assistant_chat_comp.Text.Parts.{
  after_prefix, decimal_value, drop_chars, is_b64_text, before_colon, after_colon,
}
use home_assistant_chat_comp.Address.{
  parse_user_address, match_address, match_server, address_of, is_number_text,
}
use home_assistant_chat_comp.Wire.{
  Value, text, object, no_fields, field, Codec, Octets, valid, value_of, has_key, has_keys,
  keys_within, has_exactly, is_member,
}
use home_assistant_chat_comp.Wire.Envelope.{
  b64, decoded_b64, validate_client_id, validate_device_id, bounded_int, is_bad_key_id,
  validate_key_id, validate_commitment, validate_envelope_fields, validate_envelope,
}
use home_assistant_chat_comp.Wire.Json.{number, event_value, receipt_value}
use home_assistant_chat_comp.Events.{
  ClientMessage, is_server_id, is_event_id, is_tagged_hex, validate_client_message,
  build_federated_event, validate_federated_event, validate_receipt,
}
use home_assistant_chat_comp.Events.RoundTrip.{built_event_is_valid, receipt_value-validate}
use home_assistant_chat_comp.Tests.Federation.{ip_address}
use home_assistant_chat_comp.Tests.Api.{codec}

-- zeros and their text, in place of base64
abbrev zeros : ℕ → Octets
zeros n =
    if n == 12
    then 0 ∷ 0 ∷ 0 ∷ 0 ∷ 0 ∷ 0 ∷ 0 ∷ 0 ∷ 0 ∷ 0 ∷ 0 ∷ 0 ∷ []
    else 0 ∷ 0 ∷ 0 ∷ 0 ∷ 0 ∷ 0 ∷ 0 ∷ 0 ∷ 0 ∷ 0 ∷ 0 ∷ 0 ∷ 0 ∷ 0 ∷ 0 ∷ 0 ∷ 0 ∷ 0 ∷ []

abbrev message_codec : Codec
message_codec = record codec {
  b64decode = λ s. some (zeros (if str_eq s "AAAAAAAAAAAAAAAA" then 12 else 18));
  b64encode = λ raw. if length raw == 12 then "AAAAAAAAAAAAAAAA" else "AAAAAAAAAAAAAAAAAAAAAAAA";
}

abbrev payload : Value
payload = object (
    field "client_event_id" (text "c1") (
      field "recipient" (text "22222222@10.0.0.2") (
        field "ciphertext" (text "AAAAAAAAAAAAAAAAAAAAAAAA") (
          field "envelope"
            (object (
              field "version" (text "ha-chat/2") (
                field "device_id" (text "phone") (
                  field "counter" (number 7) (
                    field "nonce" (text "AAAAAAAAAAAAAAAA") (
                      field "key_id" (text "key1")
                        (field "aad" (text "AAAAAAAAAAAAAAAA") no_fields)))))))
            no_fields))))

abbrev client_message : ClientMessage
client_message = record {
  client_event_id = "c1";
  recipient = record { number = 22222222; server = some "10.0.0.2"; port = none };
  ciphertext = "AAAAAAAAAAAAAAAAAAAAAAAA";
  envelope = record {
    version = "ha-chat/2";
    device_id = "phone";
    counter = 7;
    nonce = "AAAAAAAAAAAAAAAA";
    key_id = "key1";
    aad = "AAAAAAAAAAAAAAAA";
    key_commitment = none;
  };
}

message_passes : validate_client_message message_codec ip_address payload ≡ valid client_message
unfolding validate_client_message value_of has_key has_keys keys_within has_exactly is_member
    validate_client_id parse_user_address match_address match_server address_of is_number_text
    first_chars drop_chars decimal_value repeated all_chars strip validate_envelope b64 decoded_b64
    is_b64_text validate_envelope_fields validate_device_id bounded_int validate_key_id
    is_bad_key_id any_char validate_commitment before_colon after_colon
message_passes = refl

abbrev server_id : String
server_id = "srv_0123456789abcdef0123456789abcdef"

abbrev hex : String
hex = "00000000000000000000000000000000"

server_id_shape : is_server_id server_id ≡ true
unfolding is_tagged_hex after_prefix repeated all_chars
server_id_shape = refl

event_id_shape : is_event_id ("evt_" ++ hex) ≡ true
unfolding is_tagged_hex after_prefix repeated all_chars
event_id_shape = refl

built_event_is_valid_example :
    validate_federated_event message_codec
      (event_value (build_federated_event server_id 11_111_111 client_message hex 1000))
      server_id
      900
    ≡ valid (build_federated_event server_id 11_111_111 client_message hex 1000)
built_event_is_valid_example =
    built_event_is_valid message_codec ip_address payload client_message server_id hex 11_111_111
      1000 900 message_passes server_id_shape event_id_shape (omega arith) (omega arith)
      (omega arith) (omega arith)

abbrev reading : Receipt
reading = record {
  version = "ha-chat/2";
  receipt_id = "rcp_00000000000000000000000000000000";
  event_id = "evt_00000000000000000000000000000000";
  state = read;
  recipient_number = 22_222_222;
  created_at = 1000;
}

receipt_id_shape : is_tagged_hex "rcp_" reading.receipt_id ≡ true
unfolding is_tagged_hex after_prefix repeated all_chars
receipt_id_shape = refl

receipt_value-validate_example : validate_receipt (receipt_value reading) 1200 ≡ valid reading
receipt_value-validate_example =
    receipt_value-validate reading 1200 refl receipt_id_shape event_id_shape (omega arith)
      (omega arith) (omega arith) (omega arith)
