-- ===== src/Store/Receipts.antt =====
-- `mark_receipt`, `_queue_receipt_locked`, `accept_federated_receipt` and `delivery_status`.
pub mod Marks
pub mod Federated
use home_assistant_chat_comp.Prelude.{
  ℕ, String, Bool, true, false, ◌&&◌, ◌||◌, not, Option, none, some, List, ◌∷◌, ltb, ◌==◌, str_eq,
  find?, any_row, update_where, if◌then◌else◌,
}
use home_assistant_chat_comp.Protocol.{message_protocol}
use home_assistant_chat_comp.Schema.{State, PeerRow, SentRow, InboxRow, RouteRow, ReceiptRow}
use home_assistant_chat_comp.Schema.Event.{Json, Event, Receipt, Receipted}
use home_assistant_chat_comp.Exec.{
  Method, pure, raise, gets, modify, raise_if, transaction, integrity_error, event_not_found,
  receipt_conflict, ◌>>=◌, ◌>>◌,
}

-- `sent_rank`, and `rank` in `accept_federated_receipt`
abbrev pub rank : State → ℕ
rank State.queued = 0
rank State.failed = 0
rank State.accepted = 1
rank State.delivered = 2
rank State.read = 3

-- a reported state as a state of the event
abbrev pub state_of : Receipted → State
state_of Receipted.delivered = State.delivered
state_of Receipted.read = State.read

abbrev pub receipted_eq : Receipted → Receipted → Bool
receipted_eq Receipted.delivered Receipted.delivered = true
receipted_eq Receipted.read Receipted.read = true
receipted_eq _ _ = false

-- `prior`, with the rank that `mark_receipt` gives it (0, 1 or 2)
unfoldable pub prior_rank : InboxRow → ℕ
prior_rank i = elim i.read_at [ some _ ↦ 2 | none ↦ elim i.delivered_at [ some _ ↦ 1 | none ↦ 0 ] ]

-- the rank of the marked state
abbrev pub receipt_rank : Receipted → ℕ
receipt_rank Receipted.delivered = 1
receipt_rank Receipted.read = 2

abbrev pub coalesce : Option ℕ → ℕ → Option ℕ
coalesce none now = some now
coalesce (some t) _ = some t

-- the update of the inbox row
unfoldable pub stamp : Receipted → ℕ → InboxRow → InboxRow
stamp Receipted.read now i = record i {
  delivered_at = coalesce i.delivered_at now;
  read_at = coalesce i.read_at now;
}
stamp Receipted.delivered now i = record i { delivered_at = coalesce i.delivered_at now }

-- the primary key and the unique key of `federation_receipt_outbox`
abbrev pub same_receipt : ReceiptRow → ReceiptRow → Bool
same_receipt row r =
    str_eq r.receipt_id row.receipt_id
    || str_eq r.event_id row.event_id
      && receipted_eq r.state row.state
      && str_eq r.peer_id row.peer_id

-- `WHERE recipient_account_id = ? AND event_id = ?`
abbrev pub is_entry : String → String → InboxRow → Bool
is_entry account_id event_id i =
    str_eq i.recipient_account_id account_id && str_eq i.event_id event_id

abbrev pub is_event : String → SentRow → Bool
is_event event_id s = str_eq s.event_id event_id

-- `UPDATE sent_events SET state` where the state advances
abbrev pub advance_sent : State → ℕ → String → List SentRow → List SentRow
advance_sent desired now event_id =
    update_where (λ (s : SentRow). is_event event_id s && ltb (rank s.state) (rank desired))
      (λ s. record s { state = desired; updated_at = now })

-- the receipt that goes to the origin; its id is drawn by the caller (`uuid`)
abbrev pub receipt_for : String → Event → Receipted → ℕ → Receipt
receipt_for receipt_id event state now = record {
  version = message_protocol;
  receipt_id = receipt_id;
  event_id = event.event_id;
  state = state;
  recipient_number = event.recipient_number;
  created_at = now;
}

module _ (json : Json) where
  abbrev pub receipt_row : String → String → Event → Receipted → ℕ → ReceiptRow
  receipt_row receipt_id peer_id event state now = record {
    receipt_id = receipt_id;
    event_id = event.event_id;
    state = state;
    peer_id = peer_id;
    receipt_json = json.dumps_receipt (receipt_for receipt_id event state now);
    attempts = 0;
    next_attempt_at = now;
    last_error = none;
  }

  -- `INSERT OR IGNORE` passes over a row whose keys are taken; an unknown peer is still an error.
  unfoldable pub queue_receipt : String → String → Event → Receipted → ℕ → Method (Unit {0})
  queue_receipt receipt_id peer_id event state now = do
    let row = receipt_row receipt_id peer_id event state now
    taken ← gets (λ db. any_row (same_receipt row) db.receipts)
    known ← gets (λ db. any_row (λ (p : PeerRow). str_eq p.peer_id peer_id) db.peers)
    raise_if (not taken && not known) integrity_error
    modify (λ db. record db { receipts = if taken then db.receipts else row ∷ db.receipts })

  -- the receipts that a remote origin is sent: a message that is read at once is delivered first
  unfoldable pub report : String → String → InboxRow → Receipted → ℕ → Method (Unit {0})
  unfolding queue_receipt prior_rank
  report first second i Receipted.delivered now =
      queue_receipt first i.origin_server_id (json.loads i.event_json) Receipted.delivered now
  report first second i Receipted.read now =
      if prior_rank i == 0
      then (do
        queue_receipt first i.origin_server_id (json.loads i.event_json) Receipted.delivered now
        queue_receipt second i.origin_server_id (json.loads i.event_json) Receipted.read now)
      else queue_receipt first i.origin_server_id (json.loads i.event_json) Receipted.read now

  -- the body of `if progressed`
  unfoldable pub progress :
      String → String → String → String → InboxRow → Receipted → ℕ → Method (Unit {0})
  unfolding stamp report
  progress first second account_id event_id i state now = do
    modify (λ db. record db {
      inbox = update_where (is_entry account_id event_id) (stamp state now) db.inbox;
      sent = advance_sent (state_of state) now event_id db.sent;
    })
    local ← gets (λ db. str_eq i.origin_server_id db.server_id)
    if local then pure tt else report first second i state now

  -- `first` and `second` are the ids that receipts are given
  unfoldable pub mark_receipt : String → String → String → String → Receipted → ℕ → Method Bool
  unfolding progress prior_rank
  mark_receipt first second account_id event_id state now = transaction (do
    entry ← gets (λ db. find? (is_entry account_id event_id) db.inbox)
    elim entry [
      | none ↦ pure false
      | some i ↦ (do
        (if ltb (prior_rank i) (receipt_rank state)
            then progress first second account_id event_id i state now
            else pure tt)
        pure true)
    ])

  -- Returns whether the receipt brought nothing new.
  unfoldable pub accept_federated_receipt : String → Receipt → ℕ → Method Bool
  accept_federated_receipt peer_id receipt now = do
    routed ← gets (λ db.
        any_row (λ (r : RouteRow). str_eq r.event_id receipt.event_id && str_eq r.peer_id peer_id)
          db.routes)
    found ← gets (λ db. find? (is_event receipt.event_id) db.sent)
    elim found [
      | none ↦ raise event_not_found
      | some s ↦ do
        raise_if (not routed) event_not_found
        raise_if (not ((json.loads s.event_json).recipient_number == receipt.recipient_number))
            receipt_conflict
        if ltb (rank s.state) (rank (state_of receipt.state))
            then (do
              modify (λ db. record db {
                sent =
                    update_where (is_event receipt.event_id)
                      (λ s. record s { state = state_of receipt.state; updated_at = now }) db.sent;
              })
              pure false)
            else pure true
    ]

unfoldable pub delivery_status : String → String → Method (Option State)
delivery_status account_id event_id = do
  row ←
      gets (λ db.
        find? (λ (s : SentRow). str_eq s.account_id account_id && is_event event_id s) db.sent)
  pure (elim row [ none ↦ none | some s ↦ some s.state ])
