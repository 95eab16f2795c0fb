-- ===== src/Wire/Envelope/Sent.antt =====
-- An envelope that was validated is validated again in the form in which it is sent on.
use home_assistant_chat_comp.Prelude.{
  ◌-◌, ◌^◌, String, Option, none, some, ◌≡◌, refl, sym, ◌∙◌, ap, arith, Bool-cases, Option-cases,
  inl, inr, ◌⊎◌,
}
use home_assistant_chat_comp.Protocol.{message_protocol, max_ciphertext_bytes}
use home_assistant_chat_comp.Schema.Event.{Envelope}
use home_assistant_chat_comp.Wire.{
  Value, text, Fields, as_object, text_of, value_of, has_key, keys_within, has_keys, is_member,
  valid, Octets, Codec,
}
use home_assistant_chat_comp.Wire.Checks.{Checked-cases}
use home_assistant_chat_comp.Wire.Envelope.{
  b64, validate_device_id, bounded_int, validate_key_id, validate_commitment,
  validate_envelope_fields, validate_envelope,
}
use home_assistant_chat_comp.Wire.Envelope.Again.{
  validate_device_id-text, b64-text, bounded_int-number, validate_key_id-text,
}
use home_assistant_chat_comp.Wire.Json.{number, envelope_fields, envelope_value}

-- what an envelope holds that was validated
pub record IsValid (codec : Codec) (e : Envelope) : Type 0 where
  pub version : e.version ≡ message_protocol
  pub device_id : validate_device_id codec (text e.device_id) ≡ valid e.device_id
  pub counter : bounded_int 1 (2 ^ 53 - 1) "invalid_counter" (number e.counter) ≡ valid e.counter
  pub nonce : (raw : Octets) × b64 codec (text e.nonce) "nonce" 12 (some 12) ≡ valid raw
  pub aad : (raw : Octets) × b64 codec (text e.aad) "aad" 2048 none ≡ valid raw
  pub key_id : validate_key_id (text e.key_id) ≡ valid e.key_id
  pub key_commitment :
      (e.key_commitment ≡ none)
      ⊎ ((c : String) × (e.key_commitment ≡ some c)
          × ((raw : Octets) × (b64 codec (text c) "key_commitment" 32 (some 32) ≡ valid raw)))

module _ (codec : Codec) where
  validate_commitment-cases :
      (fs : Fields) (k : Option String)
      → validate_commitment codec fs ≡ valid k
      → (k ≡ none)
        ⊎ ((c : String) × (k ≡ some c)
            × ((raw : Octets) × (b64 codec (text c) "key_commitment" 32 (some 32) ≡ valid raw)))
  unfolding validate_commitment
  validate_commitment-cases fs k h = elim (Bool-cases (has_key "key_commitment" fs)) [
    | inl given ↦
        let v = value_of "key_commitment" fs in
        elim (Checked-cases (b64 codec v "key_commitment" 32 (some 32))) [
          | inl (raw, k1) ↦ inr (
            text_of v,
            ground arith,
            (
              raw,
              ap (λ w. b64 codec w "key_commitment" 32 (some 32))
                    (sym (b64-text codec v "key_commitment" 32 (some 32) raw k1))
                  ∙ k1,
            ),
          )
          | inr bad ↦ absurd (ground arith)
        ]
    | inr none_given ↦ inl (ground arith)
  ]

  validate_envelope_fields-IsValid :
      (fs : Fields) (e : Envelope) → validate_envelope_fields codec fs ≡ valid e → IsValid codec e
  unfolding validate_envelope_fields
  validate_envelope_fields-IsValid fs e h =
      elim (Checked-cases (validate_device_id codec (value_of "device_id" fs))) [
        | inr bad ↦ absurd (ground arith)
        | inl (d, kd) ↦
            elim (Checked-cases
              (bounded_int 1 (2 ^ 53 - 1) "invalid_counter" (value_of "counter" fs))) [
                | inr bad ↦ absurd (ground arith)
                | inl (c, kc) ↦
                    elim (Checked-cases (b64 codec (value_of "nonce" fs) "nonce" 12 (some 12))) [
                      | inr bad ↦ absurd (ground arith)
                      | inl (n, kn) ↦
                          elim (Checked-cases (b64 codec (value_of "aad" fs) "aad" 2048 none)) [
                            | inr bad ↦ absurd (ground arith)
                            | inl (a, ka) ↦
                                elim (Checked-cases (validate_key_id (value_of "key_id" fs))) [
                                  | inr bad ↦ absurd (ground arith)
                                  | inl (i, ki) ↦
                                      elim (Checked-cases (validate_commitment codec fs)) [
                                        | inr bad ↦ absurd (ground arith)
                                        | inl (k, kk) ↦
                                            let nt =
                                              b64-text codec (value_of "nonce" fs) "nonce" 12
                                                (some 12) n kn in
                                            let at =
                                              b64-text codec (value_of "aad" fs) "aad" 2048 none a
                                                ka in
                                            let dt =
                                              validate_device_id-text codec
                                                (value_of "device_id" fs) d kd in
                                            let ct =
                                              bounded_int-number 1 (2 ^ 53 - 1) "invalid_counter"
                                                (value_of "counter" fs) c kc in
                                            let it =
                                              validate_key_id-text (value_of "key_id" fs) i ki in
                                            let de : e.device_id ≡ d = ground arith in
                                            let ce : e.counter ≡ c = ground arith in
                                            let ie : e.key_id ≡ i = ground arith in
                                            let ke : e.key_commitment ≡ k = ground arith in
                                            let ne : text e.nonce ≡ value_of "nonce" fs =
                                              ground arith in
                                            let ae : text e.aad ≡ value_of "aad" fs =
                                              ground arith in
                                            record {
                                              version = ground arith;
                                              device_id =
                                                  ap (validate_device_id codec)
                                                    (ap text de ∙ sym dt)
                                                  ∙ kd
                                                  ∙ ap valid (sym de);
                                              counter =
                                                  ap (bounded_int 1 (2 ^ 53 - 1) "invalid_counter")
                                                    (ap number ce ∙ sym ct)
                                                  ∙ kc
                                                  ∙ ap valid (sym ce);
                                              nonce = (
                                                n,
                                                ap (λ v. b64 codec v "nonce" 12 (some 12)) ne ∙ kn,
                                              );
                                              aad = (
                                                a,
                                                ap (λ v. b64 codec v "aad" 2048 none) ae ∙ ka,
                                              );
                                              key_id =
                                                  ap validate_key_id (ap text ie ∙ sym it)
                                                  ∙ ki
                                                  ∙ ap valid (sym ie);
                                              key_commitment =
                                                  validate_commitment-cases fs e.key_commitment
                                                    (kk ∙ ap valid (sym ke));
                                            }
                                      ]
                                ]
                          ]
                    ]
              ]
      ]

  -- an envelope with these properties passes as the object that is sent
  sent-validate :
      (e : Envelope) (k : Option String)
      → IsValid codec e
      → (e.key_commitment ≡ k)
      → validate_envelope_fields codec
          (envelope_fields (record e { version = message_protocol; key_commitment = k }))
        ≡ valid (record e { version = message_protocol; key_commitment = k })
  unfolding validate_envelope_fields value_of has_key keys_within has_keys is_member
      validate_commitment
  sent-validate e none v k =
      let (n, kn) = v.nonce in
      let (a, ka) = v.aad in
      let kd = v.device_id in let kc = v.counter in let ki = v.key_id in ground arith
  sent-validate e (some c) v k = elim v.key_commitment [
    | inl bad ↦ absurd (ground arith)
    | inr (d, kk, (raw, good)) ↦
        let (n, kn) = v.nonce in
        let (a, ka) = v.aad in
        let kd = v.device_id in
        let kc = v.counter in
        let ki = v.key_id in
        let good' : b64 codec (text c) "key_commitment" 32 (some 32) ≡ valid raw = ground arith in
        ground arith
  ]

  envelope_fields-validate :
      (e : Envelope)
      → IsValid codec e
      → validate_envelope_fields codec (envelope_fields e) ≡ valid e
  envelope_fields-validate e v =
      let same : e ≡ record e { version = message_protocol } =
        ap (λ w. record e { version = w }) v.version in
      ap (λ x. validate_envelope_fields codec (envelope_fields x)) same
      ∙ sent-validate e e.key_commitment v refl
      ∙ ap valid (sym same)

  pub validate_envelope-again :
      (c v : Value) (e : Envelope)
      → validate_envelope codec c v ≡ valid e
      → validate_envelope codec (text (text_of c)) (envelope_value e) ≡ valid e
  unfolding validate_envelope
  validate_envelope-again c v e h =
      elim (Checked-cases (b64 codec c "ciphertext" max_ciphertext_bytes none)) [
        | inr bad ↦ absurd (ground arith)
        | inl (raw, kr) ↦ elim (Option-cases (as_object v)) [
          | inl bad ↦ absurd (ground arith)
          | inr (fs, kf) ↦
              let again : b64 codec (text (text_of c)) "ciphertext" max_ciphertext_bytes none
                  ≡ valid raw =
                ap (λ w. b64 codec w "ciphertext" max_ciphertext_bytes none)
                  (sym (b64-text codec c "ciphertext" max_ciphertext_bytes none raw kr))
                ∙ kr in
              let k =
                envelope_fields-validate e (validate_envelope_fields-IsValid fs e (ground arith)) in
              ground arith
        ]
      ]
