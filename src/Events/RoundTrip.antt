-- ===== src/Events/RoundTrip.antt =====
-- The events that the program builds pass the validation of the peer that gets them.
use mathlib.Core.Path.{subst}
use Prim.Native.String.{◌++◌}
use home_assistant_chat_comp.Prelude.{
  ℕ, pos, ◌+◌, ◌≤◌, ◌<◌, String, true, false, Option, Option-cases, inl, inr, ◌≡◌, refl, sym, ◌∙◌,
  ap, arith, eq_refl, str_eq,
}
use home_assistant_chat_comp.Protocol.{message_protocol, message_ttl_seconds}
use home_assistant_chat_comp.Schema.Event.{Event, Receipt, Receipted, delivered, read}
use home_assistant_chat_comp.Address.{IpAddress, parse_user_address}
use home_assistant_chat_comp.Address.Number.{parse_user_address-number}
use home_assistant_chat_comp.Wire.{
  Value, text, valid, Codec, as_object, value_of, text_of, has_key, keys_within, has_keys,
  has_exactly, is_member,
}
use home_assistant_chat_comp.Wire.Json.{
  number, event_value, envelope_value, receipt_value, state_name,
}
use home_assistant_chat_comp.Wire.Envelope.{validate_client_id, bounded_int, validate_envelope}
use home_assistant_chat_comp.Wire.Envelope.Again.{validate_client_id-text}
use home_assistant_chat_comp.Wire.Checks.{Checked-cases}
use home_assistant_chat_comp.Wire.Envelope.Sent.{validate_envelope-again}
use home_assistant_chat_comp.Events.{
  ClientMessage, is_server_id, is_event_id, is_tagged_hex, validate_client_message,
  build_federated_event, validate_federated_event, validate_event_id, is_bad_time, validate_state,
  validate_receipt, is_receipt_id,
}

bounded_int-number :
    (lo hi n : ℕ) (e : String) → lo ≤ n → n ≤ hi → bounded_int lo hi e (number n) ≡ valid n
unfolding bounded_int
bounded_int-number lo hi n e a b = ground arith

validate_event_id-text :
    (e s : String) → is_event_id s ≡ true → validate_event_id e (text s) ≡ valid s
unfolding validate_event_id
validate_event_id-text e s h = ground arith

in_time :
    (now later : ℕ)
    → now ≤ later + 300
    → later < now + message_ttl_seconds
    → is_bad_time later (pos now) (pos (now + message_ttl_seconds)) ≡ false
in_time now later a b = ground arith

validate_state-name :
    (e : String) (r : Receipted) → validate_state e (text (state_name r)) ≡ valid r
unfolding validate_state
validate_state-name e delivered = refl
validate_state-name e read = refl

module _ (codec : Codec) where
  -- what a validated message holds
  record IsSent (m : ClientMessage) : Type 0 where
    client_event_id : validate_client_id codec (text m.client_event_id) ≡ valid m.client_event_id
    least : 10_000_000 ≤ m.recipient.number
    most : m.recipient.number ≤ 99_999_999
    envelope :
        validate_envelope codec (text m.ciphertext) (envelope_value m.envelope) ≡ valid m.envelope

  validate_client_message-IsSent :
      (ip_address : String → Option IpAddress) (payload : Value) (m : ClientMessage)
      → validate_client_message codec ip_address payload ≡ valid m
      → IsSent m
  unfolding validate_client_message
  validate_client_message-IsSent ip_address payload m h = elim (Option-cases (as_object payload)) [
    | inl bad ↦ absurd (ground arith)
    | inr (fs, kf) ↦
        let c = value_of "ciphertext" fs in
        let v = value_of "envelope" fs in
        elim (Checked-cases (validate_client_id codec (value_of "client_event_id" fs))) [
          | inr bad ↦ absurd (ground arith)
          | inl (i, ki) ↦
              elim (Checked-cases (parse_user_address ip_address (value_of "recipient" fs))) [
                | inr bad ↦ absurd (ground arith)
                | inl (r, kr) ↦ elim (Checked-cases (validate_envelope codec c v)) [
                  | inr bad ↦ absurd (ground arith)
                  | inl (e, ke) ↦
                      let it = validate_client_id-text codec (value_of "client_event_id" fs) i ki in
                      let im : m.client_event_id ≡ i = ground arith in
                      let cm : m.ciphertext ≡ text_of c = ground arith in
                      let em : m.envelope ≡ e = ground arith in
                      let (least, most) =
                        parse_user_address-number ip_address (value_of "recipient" fs) r kr in
                      let rm : m.recipient ≡ r = ground arith in
                      record {
                        least = subst (λ a. 10_000_000 ≤ a.number) (sym rm) least;
                        most = subst (λ a. a.number ≤ 99_999_999) (sym rm) most;
                        client_event_id =
                            ap (validate_client_id codec) (ap text im ∙ sym it)
                            ∙ ki
                            ∙ ap valid (sym im);
                        envelope =
                            ap (λ t. validate_envelope codec (text t) (envelope_value m.envelope))
                              cm
                            ∙ ap
                                (λ x. validate_envelope codec (text (text_of c)) (envelope_value x))
                                em
                            ∙ validate_envelope-again codec c v e ke
                            ∙ ap valid (sym em);
                      }
                ]
              ]
        ]
  ]

  -- the checks of the event, one by one
  event_value-validate :
      (e : Event) (later : ℕ)
      → (e.version ≡ message_protocol)
      → (e.kind ≡ "direct_message")
      → is_server_id e.origin_server_id ≡ true
      → validate_event_id "invalid_event_id" (text e.event_id) ≡ valid e.event_id
      → validate_client_id codec (text e.client_event_id) ≡ valid e.client_event_id
      → bounded_int 10_000_000 99_999_999 "invalid_event_identity" (number e.sender_number)
        ≡ valid e.sender_number
      → bounded_int 10_000_000 99_999_999 "invalid_event_identity" (number e.recipient_number)
        ≡ valid e.recipient_number
      → is_bad_time later (pos e.created_at) (pos e.expires_at) ≡ false
      → validate_envelope codec (text e.ciphertext) (envelope_value e.envelope) ≡ valid e.envelope
      → validate_federated_event codec (event_value e) e.origin_server_id later ≡ valid e
  unfolding validate_federated_event value_of has_key keys_within has_keys has_exactly is_member
  event_value-validate e later kv kk ko ki kc ks kr kt ke =
      let same = eq_refl e.origin_server_id in
      let version : str_eq e.version message_protocol ≡ true =
        ap (λ v. str_eq v message_protocol) kv in
      let kind : str_eq e.kind "direct_message" ≡ true = ap (λ v. str_eq v "direct_message") kk in
      ground arith

  -- A message of a client that passed `validate_client_message`, made into an event by
  -- `build_federated_event` on a server with a well-formed id, by a sender with an eight-digit number and with
  -- a well-formed event id, and sent to a peer as JSON, passes the peer's `validate_federated_event` for
  -- this origin and comes back as the same event, as long as the peer's clock is at most 300 seconds
  -- behind the time of creation and has not reached the end of the message's life.
  pub built_event_is_valid :
      (ip_address : String → Option IpAddress) (payload : Value) (m : ClientMessage)
      (server_id hex : String) (sender now later : ℕ)
      → validate_client_message codec ip_address payload ≡ valid m
      → is_server_id server_id ≡ true
      → is_event_id ("evt_" ++ hex) ≡ true
      → 10_000_000 ≤ sender
      → sender ≤ 99_999_999
      → now ≤ later + 300
      → later < now + message_ttl_seconds
      → validate_federated_event codec
          (event_value (build_federated_event server_id sender m hex now))
          server_id
          later
        ≡ valid (build_federated_event server_id sender m hex now)
  unfolding build_federated_event
  built_event_is_valid ip_address payload m server_id hex sender now later h hs he least most early
        late =
      let sent = validate_client_message-IsSent ip_address payload m h in
      let e = build_federated_event server_id sender m hex now in
      let identity : String = "invalid_event_identity" in
      event_value-validate e later refl refl hs
        (validate_event_id-text "invalid_event_id" e.event_id he) sent.client_event_id
        (bounded_int-number 10_000_000 99_999_999 sender identity least most)
        (bounded_int-number 10_000_000 99_999_999 m.recipient.number identity sent.least sent.most)
        (in_time now later early late) sent.envelope

-- A receipt of the protocol's version with a well-formed id and event id, an eight-digit number and a
-- time of creation within the limits of the peer's clock passes `validate_receipt` in the form in which
-- it is sent, and comes back
-- as the same receipt.
pub receipt_value-validate :
    (r : Receipt) (now : ℕ)
    → r.version ≡ message_protocol
    → is_tagged_hex "rcp_" r.receipt_id ≡ true
    → is_event_id r.event_id ≡ true
    → 10_000_000 ≤ r.recipient_number
    → r.recipient_number ≤ 99_999_999
    → r.created_at ≤ now + 300
    → now ≤ r.created_at + message_ttl_seconds
    → validate_receipt (receipt_value r) now ≡ valid r
unfolding validate_receipt value_of has_key keys_within has_keys has_exactly is_member is_receipt_id
receipt_value-validate r now kv kr ke least most early late =
    let version : str_eq r.version message_protocol ≡ true =
      ap (λ v. str_eq v message_protocol) kv in
    let event = validate_event_id-text "invalid_receipt" r.event_id ke in
    let recipient =
      bounded_int-number 10_000_000 99_999_999 r.recipient_number "invalid_receipt" least most in
    let state = validate_state-name "invalid_receipt" r.state in ground arith
