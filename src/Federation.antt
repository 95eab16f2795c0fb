-- ===== src/Federation.antt =====
-- federation.py: the two deliveries of the dispatcher, `_deliver_event` and `_deliver_receipt`. What the
-- network does is a parameter of the requests. Other calls of the store can run between the request
-- and the mark, so a delivery is the outcome of the request, with the peer and the id of the server
-- read from one database, and the mark that follows, on the database of its own time.
pub mod Delivery
pub mod Request
pub mod Signed
pub mod Replies
use home_assistant_chat_comp.Prelude.{
  ℕ, suc, String, Bool, true, false, not, Option, none, some, if◌then◌else◌,
}
use home_assistant_chat_comp.Schema.{Db}
use home_assistant_chat_comp.Schema.Event.{Event, Receipt}
use home_assistant_chat_comp.Exec.{Method, pure, ◌>>◌, ◌>>=◌}
use home_assistant_chat_comp.Security.{Crypto}
use home_assistant_chat_comp.Store.Peers.{Peer, get_peer}
use home_assistant_chat_comp.Store.Outbox.{
  Work, mark_outbox_delivered, mark_outbox_failed, mark_receipt_outbox_delivered,
  mark_receipt_outbox_failed,
}
use home_assistant_chat_comp.Wire.{Codec}
use home_assistant_chat_comp.Wire.Json.{receipt_value}
use home_assistant_chat_comp.Federation.Request.{
  Network, Answer, answered, delivery_error, raised, signed_json_request, post_event,
}

-- what became of an item: nothing, as the dispatcher stops; the peer took it; an error of the delivery;
-- or another exception, which nothing catches in the delivery
pub data Outcome : Type 0 where
  stopped delivered broken : Outcome
  failed : String → Outcome

-- the answer to a request
abbrev pub answer : Answer → Outcome
answer (answered fs) = delivered
answer (delivery_error e) = failed e
answer raised = broken

-- up to and with the request
unfoldable pub attempt : {A : Type 0} → (Peer → A → Answer) → Bool → Work A → Db → Outcome
attempt post stop item db = if stop then stopped else elim (get_peer item.peer_id db) [
  | none ↦ failed "peer_unavailable"
  | some peer ↦ if not peer.enabled then failed "peer_unavailable" else answer (post peer item.body)
]

-- The mark of a message, and what the delivery returns: nothing, where an exception comes out of it.
unfoldable pub settle_event : Work Event → Outcome → ℕ → Method (Option Bool)
settle_event item stopped now = pure (some false)
settle_event item broken now = pure none
settle_event item delivered now = mark_outbox_delivered item.id now >> pure (some true)
settle_event item (failed error) now =
    mark_outbox_failed item.id (suc item.attempts) error now >> pure (some false)

-- the same of a receipt
unfoldable pub settle_receipt : Work Receipt → Outcome → ℕ → Method (Option Bool)
settle_receipt item stopped now = pure (some false)
settle_receipt item broken now = pure none
settle_receipt item delivered now = mark_receipt_outbox_delivered item.id >> pure (some true)
settle_receipt item (failed error) now =
    mark_receipt_outbox_failed item.id (suc item.attempts) error now >> pure (some false)

module _ (codec : Codec) (crypto : Crypto) (network : Network) (sent_at : ℕ) (nonce : String) where
  -- `_deliver_event`, with the database at the time of the request and the one at the time of the mark;
  -- the request is signed at its own reading of the clock, with a nonce that is drawn
  unfoldable pub deliver_event : Bool → Work Event → Db → ℕ → Method (Option Bool)
  unfolding attempt settle_event post_event
  deliver_event stop item asked now =
      settle_event item
        (attempt
          (λ peer event. post_event codec crypto network asked.server_id peer event sent_at nonce)
          stop item asked)
        now

  -- `_deliver_receipt`
  unfoldable pub deliver_receipt : Bool → Work Receipt → Db → ℕ → Method (Option Bool)
  unfolding attempt settle_receipt signed_json_request
  deliver_receipt stop item asked now =
      settle_receipt item
        (attempt
          (λ peer receipt.
            signed_json_request codec crypto network asked.server_id peer "/v1/federation/receipts"
              (receipt_value receipt) sent_at nonce)
          stop item asked)
        now
