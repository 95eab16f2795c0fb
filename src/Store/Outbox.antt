-- ===== src/Store/Outbox.antt =====
-- The two outboxes: `due_outbox`, `mark_outbox_delivered`, `mark_outbox_failed`, and the same for
-- receipts.
pub mod Pages
pub mod Marks
use Prim.Native.Nat.{Ordering}
use Prim.Native.Nat.{compare as compare_ℕ}
use Prim.Native.String.{compare}
use home_assistant_chat_comp.Prelude.{
  ℕ, ◌+◌, ◌^◌, min, String, Bool, true, false, ◌&&◌, not, some, List, [], ◌∷◌, map, ltb, leb,
  str_eq, take, order_by, any_row, select, count_where, delete_where, update_where, if◌then◌else◌,
}
use home_assistant_chat_comp.Text.{first_chars}
use home_assistant_chat_comp.Protocol.{max_outbox_attempts, max_outbox_per_peer}
use home_assistant_chat_comp.Schema.{State, SentRow, OutboxRow, ReceiptRow}
use home_assistant_chat_comp.Schema.Event.{Json, Event, Receipt, Receipted}
use home_assistant_chat_comp.Exec.{Method, pure, gets, modify, transaction, ◌>>=◌, ◌>>◌}
use home_assistant_chat_comp.Store.Cleanup.{cleanup_expired}
use home_assistant_chat_comp.Store.Receipts.{is_event}

-- `ORDER BY next_attempt_at, id`
abbrev pub due_before : ℕ → String → ℕ → String → Bool
due_before t a u b = elim (compare_ℕ t u) [
  | Ordering.lt ↦ true
  | Ordering.gt ↦ false
  | Ordering.eq ↦ elim (compare a b) [ Ordering.gt ↦ false | _ ↦ true ]
]

-- `row_number() OVER (PARTITION BY peer_id ORDER BY ...) <= MAX_OUTBOX_PER_PEER` over rows that are in
-- that order: a row stays while fewer than the maximum of its peer stand before it. `seen` holds the
-- rows before.
module _ {A : Type 0} (peer_of : A → String) where
  -- the rows of a peer
  unfoldable pub peer_count : String → List A → ℕ
  peer_count p rows = count_where (λ r. str_eq (peer_of r) p) rows

  unfoldable pub first_of_peer : List A → List A → List A
  unfolding peer_count
  first_of_peer seen [] = []
  first_of_peer seen (r ∷ rows) =
      let rest = first_of_peer (r ∷ seen) rows in
      if ltb (peer_count (peer_of r) seen) max_outbox_per_peer then r ∷ rest else rest

abbrev pub outbox_before : OutboxRow → OutboxRow → Bool
outbox_before a b = due_before a.next_attempt_at a.event_id b.next_attempt_at b.event_id

abbrev pub outbox_peer : OutboxRow → String
outbox_peer o = o.peer_id

-- `next_attempt_at <= ? AND attempts < ?`
abbrev pub is_due : ℕ → OutboxRow → Bool
is_due now o = leb o.next_attempt_at now && ltb o.attempts max_outbox_attempts

unfoldable pub due_rows : ℕ → ℕ → List OutboxRow → List OutboxRow
unfolding first_of_peer
due_rows now limit rows = take limit (
    order_by outbox_before
      (first_of_peer outbox_peer [] (order_by outbox_before (select (is_due now) rows))))

-- an item of the dispatcher's work
pub record Work (A : Type 0) : Type 0 where
  pub id : String
  pub peer_id : String
  pub body : A
  pub attempts : ℕ

unfoldable pub due_outbox : Json → ℕ → ℕ → Method (List (Work Event))
unfolding due_rows
due_outbox json limit now = do
  modify (cleanup_expired json now)
  rows ← gets (λ db. due_rows now limit db.outbox)
  pure (
      map
        (λ (o : OutboxRow). record {
          id = o.event_id;
          peer_id = o.peer_id;
          body = json.loads o.event_json;
          attempts = o.attempts;
        })
        rows)

-- `state IN ('queued', 'failed')`
abbrev pub is_unsent : State → Bool
is_unsent State.queued = true
is_unsent State.failed = true
is_unsent _ = false

unfoldable pub mark_outbox_delivered : String → ℕ → Method (Unit {0})
mark_outbox_delivered event_id now = transaction (do
  modify (λ db. record db {
    outbox = delete_where (λ (o : OutboxRow). str_eq o.event_id event_id) db.outbox;
  })
  modify (λ db. record db {
    sent =
        update_where (λ (s : SentRow). is_event event_id s && is_unsent s.state)
          (λ s. record s { state = State.accepted; updated_at = now }) db.sent;
  }))

-- the seconds until the next attempt
unfoldable pub backoff : ℕ → ℕ
backoff attempts = min 300 (2 ^ min attempts 8)

-- `error[:200]`
abbrev pub safe_error : String → String
safe_error error = first_chars 200 error

-- the update of the row of the outbox
unfoldable pub retry_later : ℕ → String → ℕ → OutboxRow → OutboxRow
unfolding backoff
retry_later attempts error now o = record o {
  attempts = attempts;
  next_attempt_at = now + backoff attempts;
  last_error = some (safe_error error);
}

unfoldable pub mark_outbox_failed : String → ℕ → String → ℕ → Method (Unit {0})
unfolding retry_later
mark_outbox_failed event_id attempts error now = do
  modify (λ db. record db {
    outbox =
        update_where (λ (o : OutboxRow). str_eq o.event_id event_id)
          (retry_later attempts error now) db.outbox;
  })
  modify (λ db. record db {
    sent =
        if leb max_outbox_attempts attempts
        then update_where (is_event event_id)
            (λ s. record s { state = State.failed; updated_at = now }) db.sent
        else db.sent;
  })

abbrev pub receipt_before : ReceiptRow → ReceiptRow → Bool
receipt_before a b = due_before a.next_attempt_at a.receipt_id b.next_attempt_at b.receipt_id

abbrev pub receipt_peer : ReceiptRow → String
receipt_peer r = r.peer_id

abbrev pub is_read : Receipted → Bool
is_read Receipted.read = true
is_read Receipted.delivered = false

-- the subquery of `NOT (state = 'read' AND EXISTS (...))`
abbrev pub has_pending_delivered : List ReceiptRow → ReceiptRow → Bool
has_pending_delivered rows r =
    any_row
      (λ (d : ReceiptRow).
        str_eq d.event_id r.event_id && str_eq d.peer_id r.peer_id && not (is_read d.state))
      rows

abbrev pub is_due_receipt : ℕ → List ReceiptRow → ReceiptRow → Bool
is_due_receipt now rows r =
    leb r.next_attempt_at now
    && ltb r.attempts max_outbox_attempts
    && not (is_read r.state && has_pending_delivered rows r)

unfoldable pub due_receipt_rows : ℕ → ℕ → List ReceiptRow → List ReceiptRow
unfolding first_of_peer
due_receipt_rows now limit rows = take limit (
    order_by receipt_before (
      first_of_peer receipt_peer []
        (order_by receipt_before (select (is_due_receipt now rows) rows))))

unfoldable pub due_receipts : Json → ℕ → ℕ → Method (List (Work Receipt))
unfolding due_receipt_rows
due_receipts json limit now = do
  modify (cleanup_expired json now)
  rows ← gets (λ db. due_receipt_rows now limit db.receipts)
  pure (
      map
        (λ (r : ReceiptRow). record {
          id = r.receipt_id;
          peer_id = r.peer_id;
          body = json.loads_receipt r.receipt_json;
          attempts = r.attempts;
        })
        rows)

unfoldable pub mark_receipt_outbox_delivered : String → Method (Unit {0})
mark_receipt_outbox_delivered receipt_id = modify (λ db. record db {
  receipts = delete_where (λ (r : ReceiptRow). str_eq r.receipt_id receipt_id) db.receipts;
})

unfoldable pub mark_receipt_outbox_failed : String → ℕ → String → ℕ → Method (Unit {0})
unfolding backoff
mark_receipt_outbox_failed receipt_id attempts error now = modify (λ db. record db {
  receipts =
      update_where (λ (r : ReceiptRow). str_eq r.receipt_id receipt_id)
        (λ r. record r {
          attempts = attempts;
          next_attempt_at = now + backoff attempts;
          last_error = some (safe_error error);
        })
        db.receipts;
})
