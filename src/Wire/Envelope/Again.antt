-- ===== src/Wire/Envelope/Again.antt =====
-- An envelope that was validated is validated again in the form in which it is sent on.
use home_assistant_chat_comp.Prelude.{
  ℕ, ℤ, pos, negsuc, String, Option, some, ◌≡◌, sym, ◌∙◌, ap, arith, Option-cases, inl, inr,
}
use home_assistant_chat_comp.Wire.{
  Value, null, boolean, integer, float, text, array, object, Fields, as_text, as_int, as_object,
  text_of, valid, Octets, Codec,
}
use home_assistant_chat_comp.Wire.Envelope.{
  b64, validate_device_id, validate_client_id, bounded_int, validate_key_id,
}
use home_assistant_chat_comp.Wire.Json.{number}

pub as_text-some : (v : Value) (s : String) → as_text v ≡ some s → v ≡ text s
as_text-some (text t) s h = ground arith
as_text-some null s h = absurd (ground arith)
as_text-some (boolean b) s h = absurd (ground arith)
as_text-some (integer n) s h = absurd (ground arith)
as_text-some (float f) s h = absurd (ground arith)
as_text-some (array xs) s h = absurd (ground arith)
as_text-some (object fs) s h = absurd (ground arith)

as_int-some : (v : Value) (n : ℤ) → as_int v ≡ some n → v ≡ integer n
as_int-some (integer m) n h = ground arith
as_int-some null n h = absurd (ground arith)
as_int-some (boolean b) n h = absurd (ground arith)
as_int-some (text s) n h = absurd (ground arith)
as_int-some (float f) n h = absurd (ground arith)
as_int-some (array xs) n h = absurd (ground arith)
as_int-some (object fs) n h = absurd (ground arith)

pub as_object-some : (v : Value) (fs : Fields) → as_object v ≡ some fs → v ≡ object fs
as_object-some (object fs) gs h = ground arith
as_object-some null gs h = absurd (ground arith)
as_object-some (boolean b) gs h = absurd (ground arith)
as_object-some (text s) gs h = absurd (ground arith)
as_object-some (float f) gs h = absurd (ground arith)
as_object-some (array xs) gs h = absurd (ground arith)
as_object-some (integer n) gs h = absurd (ground arith)

module _ (codec : Codec) where
  pub validate_device_id-text :
      (v : Value) (d : String) → validate_device_id codec v ≡ valid d → v ≡ text d
  unfolding validate_device_id
  validate_device_id-text v d h = elim (Option-cases (as_text v)) [
    | inl e ↦ absurd (ground arith)
    | inr (s, e) ↦ elim (Option-cases (codec.uuid s)) [
      | inl bad ↦ absurd (ground arith)
      | inr (u, k) ↦ as_text-some v d (ground arith)
    ]
  ]

  pub validate_client_id-text :
      (v : Value) (d : String) → validate_client_id codec v ≡ valid d → v ≡ text d
  unfolding validate_client_id
  validate_client_id-text v d h = elim (Option-cases (as_text v)) [
    | inl e ↦ absurd (ground arith)
    | inr (s, e) ↦ elim (Option-cases (codec.uuid s)) [
      | inl bad ↦ absurd (ground arith)
      | inr (u, k) ↦ as_text-some v d (ground arith)
    ]
  ]

  pub b64-text :
      (v : Value) (name : String) (m : ℕ) (exact : Option ℕ) (raw : Octets)
      → b64 codec v name m exact ≡ valid raw
      → v ≡ text (text_of v)
  unfolding b64
  b64-text v name m exact raw h = elim (Option-cases (as_text v)) [
    | inl e ↦ absurd (ground arith)
    | inr (s, e) ↦ let k = as_text-some v s e in k ∙ ap text (sym (ap text_of k))
  ]

pub bounded_int-number :
    (lo hi : ℕ) (e : String) (v : Value) (n : ℕ) → bounded_int lo hi e v ≡ valid n → v ≡ number n
unfolding bounded_int
bounded_int-number lo hi e v n h = elim (Option-cases (as_int v)) [
  | inl k ↦ absurd (ground arith)
  | inr (pos m, k) ↦ as_int-some v (pos n) (ground arith)
  | inr (negsuc m, k) ↦ absurd (ground arith)
]

pub validate_key_id-text : (v : Value) (d : String) → validate_key_id v ≡ valid d → v ≡ text d
unfolding validate_key_id
validate_key_id-text v d h = elim (Option-cases (as_text v)) [
  | inl e ↦ absurd (ground arith)
  | inr (s, e) ↦ as_text-some v d (ground arith)
]
