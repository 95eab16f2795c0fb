-- ===== src/Wire/Json.antt =====
-- The objects that the program sends, as values: `build_federated_event`, the receipts of
-- `_queue_receipt_locked`, and the dictionaries of accounts and devices.
use home_assistant_chat_comp.Prelude.{ℕ, pos, String, Option, none, some, List, [], ◌∷◌}
use home_assistant_chat_comp.Schema.Event.{Envelope, Event, Receipt, Receipted}
use home_assistant_chat_comp.Wire.{
  Value, integer, text, array, object, Items, nil, item, Fields, no_fields, field,
}

abbrev pub number : ℕ → Value
number n = integer (pos n)

abbrev pub envelope_tail : Option String → Fields
envelope_tail none = no_fields
envelope_tail (some c) = field "key_commitment" (text c) no_fields

abbrev pub envelope_fields : Envelope → Fields
envelope_fields e = field "version" (text e.version) (
    field "device_id" (text e.device_id) (
      field "counter" (number e.counter) (
        field "nonce" (text e.nonce) (
          field "key_id" (text e.key_id)
            (field "aad" (text e.aad) (envelope_tail e.key_commitment))))))

abbrev pub envelope_value : Envelope → Value
envelope_value e = object (envelope_fields e)

abbrev pub event_fields : Event → Fields
event_fields e = field "version" (text e.version) (
    field "event_id" (text e.event_id) (
      field "origin_server_id" (text e.origin_server_id) (
        field "client_event_id" (text e.client_event_id) (
          field "kind" (text e.kind) (
            field "sender_number" (number e.sender_number) (
              field "recipient_number" (number e.recipient_number) (
                field "created_at" (number e.created_at) (
                  field "expires_at" (number e.expires_at) (
                    field "ciphertext" (text e.ciphertext)
                      (field "envelope" (envelope_value e.envelope) no_fields))))))))))

abbrev pub event_value : Event → Value
event_value e = object (event_fields e)

abbrev pub state_name : Receipted → String
state_name Receipted.delivered = "delivered"
state_name Receipted.read = "read"

abbrev pub receipt_value : Receipt → Value
receipt_value r = object (
    field "version" (text r.version) (
      field "receipt_id" (text r.receipt_id) (
        field "event_id" (text r.event_id) (
          field "state" (text (state_name r.state)) (
            field "recipient_number" (number r.recipient_number)
              (field "created_at" (number r.created_at) no_fields))))))

-- a dictionary, by its items
abbrev pub fields_of : List (String × Value) → Fields
fields_of [] = no_fields
fields_of ((k, v) ∷ kvs) = field k v (fields_of kvs)

abbrev pub dict : List (String × Value) → Value
dict kvs = object (fields_of kvs)

abbrev pub items_of : {A : Type 0} → (A → Value) → List A → Items
items_of f [] = nil
items_of f (x ∷ xs) = item (f x) (items_of f xs)

abbrev pub list_value : {A : Type 0} → (A → Value) → List A → Value
list_value f xs = array (items_of f xs)
