-- ===== src/Wire/DeviceKey.antt =====
-- events.py: the validation of a device's public key, `validate_public_jwk`.
use home_assistant_chat_comp.Prelude.{
  ℕ, ◌+◌, ◌*◌, ◌%◌, ◌^◌, String, Bool, true, false, ◌||◌, not, none, some, List, [], ◌∷◌, leb, ◌==◌,
  str_eq, length,
}
use home_assistant_chat_comp.Text.{is_url_char, repeated}
use home_assistant_chat_comp.Wire.{
  Value, boolean, array, nil, as_text, as_object, is_text, value_of, has_exactly, Checked, valid,
  value_error, other_error, ◌>>=◌, ◌>>◌, reject_if, Loaded, loaded, decode_error, number_error,
  load_error, Octets, Codec,
}

-- the field and the constant of the curve P-256
abbrev pub p256_field : ℕ
p256_field = 0xFFFFFFFF00000001000000000000000000000000FFFFFFFFFFFFFFFFFFFFFFFF

abbrev pub p256_b : ℕ
p256_b = 0x5AC635D8AA3A93E7B3EBBD55769886BC651D06B0CC53B0F63BCE3C3E27D2604B

-- `int.from_bytes(raw, "big")`, behind the bytes of `n`
unfoldable pub big_endian : ℕ → Octets → ℕ
big_endian n [] = n
big_endian n (b ∷ bs) = big_endian (n * 256 + b) bs

abbrev pub is_true : Value → Bool
is_true (boolean b) = b
is_true _ = false

-- `key.get("key_ops") == []`
abbrev pub is_empty_array : Value → Bool
is_empty_array (array nil) = true
is_empty_array _ = false

abbrev pub jwk_keys : List String
jwk_keys = "kty" ∷ "crv" ∷ "x" ∷ "y" ∷ "ext" ∷ "key_ops" ∷ []

-- `(y * y - (pow(x, 3, p) - 3 * x + b)) % p == 0`, with the subtractions on the other side
unfoldable pub is_on_curve : ℕ → ℕ → Bool
is_on_curve x y = (y * y + 3 * x) % p256_field == (x ^ 3 % p256_field + p256_b) % p256_field

module _ (codec : Codec) where
  -- one round of the loop over the two coordinates
  unfoldable pub coordinate : Value → Checked ℕ
  unfolding repeated big_endian
  coordinate value = elim (as_text value) [
    | none ↦ value_error "invalid_device_key"
    | some s ↦ do
      reject_if (not (repeated is_url_char 43 43 s)) "invalid_device_key"
      elim (codec.urlsafe_b64decode s) [
        | none ↦ value_error "invalid_device_key"
        | some raw ↦ do
          reject_if (not (length raw == 32) || not (str_eq (codec.urlsafe_b64encode raw) s))
              "invalid_device_key"
          valid (big_endian 0 raw)
      ]
  ]

  -- the checks of the parsed key
  unfoldable pub check_jwk : Value → Checked String
  unfolding coordinate is_on_curve
  check_jwk key = elim (as_object key) [
    | none ↦ value_error "invalid_device_key"
    | some fs ↦ do
      reject_if
          (not (has_exactly jwk_keys fs)
            || not (is_text "EC" (value_of "kty" fs))
            || not (is_text "P-256" (value_of "crv" fs))
            || not (is_true (value_of "ext" fs))
            || not (is_empty_array (value_of "key_ops" fs)))
          "invalid_device_key"
      x ← coordinate (value_of "x" fs)
      y ← coordinate (value_of "y" fs)
      reject_if (leb p256_field x || leb p256_field y) "invalid_device_key"
      reject_if (not (is_on_curve x y)) "invalid_device_key"
      valid (codec.dumps_value key)
  ]

  unfoldable pub parsed_key : Loaded → Checked Value
  parsed_key (loaded key) = valid key
  parsed_key decode_error = value_error "invalid_device_key"
  parsed_key (number_error e) = value_error e
  parsed_key load_error = other_error

  -- `validate_public_jwk`: the key is an object, or a text that holds one
  unfoldable pub validate_public_jwk : Value → Checked String
  unfolding check_jwk parsed_key
  validate_public_jwk value = elim (as_text value) [
    | none ↦ check_jwk value
    | some s ↦ do key ← parsed_key (codec.loads_text s); check_jwk key
  ]
