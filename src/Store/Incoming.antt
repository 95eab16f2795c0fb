-- ===== src/Store/Incoming.antt =====
-- `accept_federated_event` and `inbox`.
pub mod Accepted
pub mod Page
use Prim.Native.String.{len, compare}
use Prim.Native.Nat.{Ordering}
use Prim.Native.Nat.{compare as compare_ℕ}
use home_assistant_chat_comp.Prelude.{
  ℕ, String, Bool, true, false, ◌&&◌, not, none, some, List, ◌∷◌, map, ltb, leb, str_eq, take,
  order_by, find?, select, if◌then◌else◌,
}
use home_assistant_chat_comp.Protocol.{max_inbox_page}
use home_assistant_chat_comp.Schema.{Db, InboxRow}
use home_assistant_chat_comp.Schema.Event.{Json, Event}
use home_assistant_chat_comp.Exec.{
  Method, pure, raise, gets, modify, raise_if, transaction, recipient_not_found, event_conflict,
  invalid_limit, ◌>>=◌, ◌>>◌,
}
use home_assistant_chat_comp.Store.Cleanup.{cleanup_expired, ensure_event_quota, inbox_events}
use home_assistant_chat_comp.Store.Outgoing.{is_recipient}

-- the row that a federated event becomes
abbrev pub inbox_row : Json → String → String → Event → ℕ → InboxRow
inbox_row json peer_id recipient event now = record {
  event_id = event.event_id;
  recipient_account_id = recipient;
  origin_server_id = peer_id;
  event_json = json.dumps event;
  accepted_at = now;
  delivered_at = none;
  read_at = none;
}

-- the handler of `IntegrityError`: the same event again is a duplicate, another one a conflict
abbrev pub is_same_event : Json → String → Event → InboxRow → Bool
is_same_event json peer_id event i =
    str_eq i.origin_server_id peer_id && str_eq i.event_json (json.dumps event)

module _ (json : Json) where
  unfoldable pub accept_federated_event : String → Event → ℕ → Method Bool
  accept_federated_event peer_id event now = do
    modify (cleanup_expired json now)
    recipient ← gets (λ db. find? (is_recipient event.recipient_number) db.accounts)
    elim recipient [
      | none ↦ raise recipient_not_found
      | some a ↦ do
        ensure_event_quota inbox_events a.id (len (json.dumps event))
        existing ← gets (λ db. find? (λ (i : InboxRow). str_eq i.event_id event.event_id) db.inbox)
        elim existing [
          | some i ↦ if is_same_event json peer_id event i then pure true else raise event_conflict
          | none ↦ do
            modify (λ db. record db { inbox = inbox_row json peer_id a.id event now ∷ db.inbox })
            pure false
        ]
    ]

-- `ORDER BY accepted_at, event_id`
unfoldable pub is_before : InboxRow → InboxRow → Bool
is_before a b = elim (compare_ℕ a.accepted_at b.accepted_at) [
  | Ordering.lt ↦ true
  | Ordering.gt ↦ false
  | Ordering.eq ↦ elim (compare a.event_id b.event_id) [ Ordering.gt ↦ false | _ ↦ true ]
]

-- `recipient_account_id = ? AND delivered_at IS NULL AND expires_at > ?`
abbrev pub is_waiting : Json → String → ℕ → InboxRow → Bool
is_waiting json account_id now i =
    str_eq i.recipient_account_id account_id
    && elim i.delivered_at [ none ↦ true | some _ ↦ false ]
    && ltb now (json.extract_expires_at i.event_json)

-- the rows of one page of the inbox
unfoldable pub inbox_rows : Json → String → ℕ → ℕ → Db → List InboxRow
inbox_rows json account_id limit now db =
    take limit (order_by is_before (select (is_waiting json account_id now) db.inbox))

-- Each event comes back with the state "accepted" beside it.
unfoldable pub inbox : Json → String → ℕ → ℕ → Method (List Event)
unfolding inbox_rows
inbox json account_id limit now = do
  raise_if (not (leb 1 limit && leb limit max_inbox_page)) invalid_limit
  transaction (do
    modify (cleanup_expired json now)
    rows ← gets (inbox_rows json account_id limit now)
    pure (map (λ (i : InboxRow). json.loads i.event_json) rows))
