-- ===== src/Wire/Envelope.antt =====
-- events.py: the validation of base64 texts, of ids and of the envelope of a message.
pub mod Again
pub mod Sent
use Prim.Native.String.{◌++◌, count}
use home_assistant_chat_comp.Prelude.{
  ℕ, ◌+◌, ◌-◌, ◌*◌, ◌/◌, ◌%◌, ◌^◌, Bool, true, false, ◌||◌, not, Option, none, some, String, List,
  [], ◌∷◌, ltb, ◌==◌, pos_part, str_eq, length, if◌then◌else◌,
}
use home_assistant_chat_comp.Text.{between, any_char}
use home_assistant_chat_comp.Text.Parts.{is_b64_text}
use home_assistant_chat_comp.Protocol.{message_protocol, max_ciphertext_bytes}
use home_assistant_chat_comp.Schema.Event.{Envelope}
use home_assistant_chat_comp.Wire.{
  Value, Fields, as_text, as_int, as_object, is_text, text_of, value_of, has_key, keys_within,
  has_keys, int_between, Checked, valid, value_error, ◌>>=◌, ◌>>◌, reject_if, Octets, Codec,
}

abbrev pub fits : Option ℕ → ℕ → Bool
fits none n = true
fits (some m) n = m == n

module _ (codec : Codec) where
  -- the checks of `_b64` after the decoding
  unfoldable pub decoded_b64 : Option Octets → String → String → ℕ → Option ℕ → Checked Octets
  decoded_b64 none s name maximum exact = value_error ("invalid_" ++ name)
  decoded_b64 (some raw) s name maximum exact = do
    reject_if (ltb maximum (length raw) || not (fits exact (length raw))) ("invalid_" ++ name)
    reject_if (not (str_eq (codec.b64encode raw) s)) ("invalid_" ++ name)
    valid raw

  -- `_b64`
  unfoldable pub b64 : Value → String → ℕ → Option ℕ → Checked Octets
  unfolding is_b64_text decoded_b64
  b64 value name maximum exact = elim (as_text value) [
    | none ↦ value_error ("invalid_" ++ name)
    | some s ↦ do
      reject_if (str_eq s "" || not (count s % 4 == 0) || not (is_b64_text s)) ("invalid_" ++ name)
      reject_if (ltb ((maximum + 2) / 3 * 4) (count s)) ("invalid_" ++ name)
      decoded_b64 (codec.b64decode s) s name maximum exact
  ]

  -- `validate_device_id`; `uuid.UUID` raises an exception that is caught on anything but a text
  unfoldable pub validate_device_id : Value → Checked String
  validate_device_id value = elim (as_text value) [
    | none ↦ value_error "invalid_device_id"
    | some s ↦ elim (codec.uuid s) [
      | none ↦ value_error "invalid_device_id"
      | some u ↦ do
        reject_if
            (not (str_eq u.canonical s) || not (elim u.version [ none ↦ false | some v ↦ v == 4 ]))
            "invalid_device_id"
        valid s
    ]
  ]

  -- `str(uuid.UUID(value)) == value`, or an error
  unfoldable pub validate_client_id : Value → Checked String
  validate_client_id value = elim (as_text value) [
    | none ↦ value_error "invalid_client_event_id"
    | some s ↦ elim (codec.uuid s) [
      | none ↦ value_error "invalid_client_event_id"
      | some u ↦ do reject_if (not (str_eq u.canonical s)) "invalid_client_event_id"; valid s
    ]
  ]

-- a number within bounds, and no `bool`
unfoldable pub bounded_int : ℕ → ℕ → String → Value → Checked ℕ
bounded_int lo hi e value = elim (as_int value) [
  | none ↦ value_error e
  | some n ↦ if int_between lo hi n then valid (pos_part n) else value_error e
]

-- `not 1 <= len(key_id) <= 256 or any(ord(c) < 33 for c in key_id)`
unfoldable pub is_bad_key_id : String → Bool
unfolding any_char
is_bad_key_id s = not (between 1 256 (count s)) || any_char (λ c. ltb c 33) s

unfoldable pub validate_key_id : Value → Checked String
unfolding is_bad_key_id
validate_key_id value = elim (as_text value) [
  | none ↦ value_error "invalid_key_id"
  | some s ↦ do reject_if (is_bad_key_id s) "invalid_key_id"; valid s
]

abbrev pub envelope_keys : List String
envelope_keys = "version" ∷ "device_id" ∷ "counter" ∷ "nonce" ∷ "key_id" ∷ "aad" ∷ []

-- what the device signs and counts, of an object with the right keys
module _ (codec : Codec) where
  -- `if "key_commitment" in envelope`
  unfoldable pub validate_commitment : Fields → Checked (Option String)
  unfolding b64
  validate_commitment fs =
      if has_key "key_commitment" fs
      then (do
        raw ← b64 codec (value_of "key_commitment" fs) "key_commitment" 32 (some 32)
        valid (some (text_of (value_of "key_commitment" fs))))
      else valid none

  -- the checks of the envelope, after those of the ciphertext
  unfoldable pub validate_envelope_fields : Fields → Checked Envelope
  unfolding b64 validate_device_id bounded_int validate_key_id validate_commitment
  validate_envelope_fields fs = do
    reject_if
        (not (keys_within ("key_commitment" ∷ envelope_keys) fs) || not (has_keys envelope_keys fs))
        "invalid_envelope"
    reject_if (not (is_text message_protocol (value_of "version" fs)))
        "unsupported_message_protocol"
    device_id ← validate_device_id codec (value_of "device_id" fs)
    counter ← bounded_int 1 (2 ^ 53 - 1) "invalid_counter" (value_of "counter" fs)
    nonce ← b64 codec (value_of "nonce" fs) "nonce" 12 (some 12)
    aad ← b64 codec (value_of "aad" fs) "aad" 2048 none
    key_id ← validate_key_id (value_of "key_id" fs)
    commitment ← validate_commitment fs
    valid (record {
      version = message_protocol;
      device_id = device_id;
      counter = counter;
      nonce = text_of (value_of "nonce" fs);
      key_id = key_id;
      aad = text_of (value_of "aad" fs);
      key_commitment = commitment;
    })

  -- `validate_envelope`
  unfoldable pub validate_envelope : Value → Value → Checked Envelope
  unfolding b64 validate_envelope_fields
  validate_envelope ciphertext envelope = do
    raw ← b64 codec ciphertext "ciphertext" max_ciphertext_bytes none
    reject_if (ltb (length raw) 16) "invalid_ciphertext"
    elim (as_object envelope) [
      | none ↦ value_error "invalid_envelope"
      | some fs ↦ validate_envelope_fields fs
    ]
