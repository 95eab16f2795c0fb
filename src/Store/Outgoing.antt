-- ===== src/Store/Outgoing.antt =====
-- `create_outgoing_event`: a client's message is stored, and delivered or queued, in one transaction.
pub mod Effects
pub mod Retry
pub mod Fresh
use Prim.Native.String.{len}
use home_assistant_chat_comp.Prelude.{
  ℕ, String, Bool, true, false, ◌&&◌, ◌||◌, not, Option, none, some, ◌∷◌, ltb, ◌==◌, str_eq, find?,
  any_row, count_where, update_where, if◌then◌else◌,
}
use home_assistant_chat_comp.Schema.{
  State, AccountRow, PeerRow, DeviceRow, SentRow, InboxRow, OutboxRow, RouteRow,
}
use home_assistant_chat_comp.Schema.Event.{Json, Event, comparable}
use home_assistant_chat_comp.Exec.{
  Method, pure, raise, gets, modify, raise_if, transaction, integrity_error, invalid_route,
  idempotency_conflict, replayed_message, unknown_device, recipient_not_found, ◌>>=◌, ◌>>◌,
}
use home_assistant_chat_comp.Store.Cleanup.{
  cleanup_expired, ensure_event_quota, sent_events, inbox_events,
}

-- the arguments of `create_outgoing_event`, of which the account's id alone is used
pub record Outgoing : Type 0 where
  pub account_id : String
  pub device_id : String
  pub counter : ℕ
  pub client_event_id : String
  pub target : String
  pub event : Event
  pub local_recipient : Option ℕ
  pub peer_id : Option String

-- `WHERE account_id = ? AND client_event_id = ?`, a unique key of `sent_events`
abbrev pub is_request : Outgoing → SentRow → Bool
is_request o s = str_eq s.account_id o.account_id && str_eq s.client_event_id o.client_event_id

-- the account's device, if it is not revoked
abbrev pub is_device : String → String → DeviceRow → Bool
is_device device_id account_id d =
    str_eq d.id device_id && str_eq d.account_id account_id && not d.revoked

-- `WHERE id = ? AND account_id = ? AND revoked = 0 AND last_counter < ?`
abbrev pub accepts_counter : Outgoing → DeviceRow → Bool
accepts_counter o d = is_device o.device_id o.account_id d && ltb d.last_counter o.counter

-- the update of the device's counter, and the errors when it does not touch one row
unfoldable pub advance_counter : Outgoing → Method (Unit {0})
advance_counter o = do
  updated ← gets (λ db. count_where (accepts_counter o) db.devices)
  known ← gets (λ db. any_row (is_device o.device_id o.account_id) db.devices)
  raise_if (not (updated == 1)) (if known then replayed_message else unknown_device)
  modify (λ db. record db {
    devices =
        update_where (accepts_counter o) (λ d. record d { last_counter = o.counter }) db.devices;
  })

-- `INSERT INTO sent_events`, with its primary key, its unique key and its reference
unfoldable pub insert_sent : SentRow → Method (Unit {0})
insert_sent row = do
  taken ← gets (λ db.
      any_row
        (λ (s : SentRow).
          str_eq s.event_id row.event_id
          || str_eq s.account_id row.account_id && str_eq s.client_event_id row.client_event_id)
        db.sent)
  known ← gets (λ db. any_row (λ (a : AccountRow). str_eq a.id row.account_id) db.accounts)
  raise_if (taken || not known) integrity_error
  modify (λ db. record db { sent = row ∷ db.sent })

-- `INSERT INTO inbox_events`; the recipient was read from `accounts` before
unfoldable pub insert_inbox : InboxRow → Method (Unit {0})
insert_inbox row = do
  taken ← gets (λ db. any_row (λ (i : InboxRow). str_eq i.event_id row.event_id) db.inbox)
  raise_if taken integrity_error
  modify (λ db. record db { inbox = row ∷ db.inbox })

-- `SELECT id FROM accounts WHERE identity = ? AND enabled = 1`
abbrev pub is_recipient : ℕ → AccountRow → Bool
is_recipient identity a = a.identity == identity && a.enabled

-- `"accepted" if local_recipient is not None else "queued"`
abbrev pub first_state : Outgoing → State
first_state o = elim o.local_recipient [ none ↦ State.queued | some _ ↦ State.accepted ]

-- `(local_recipient is None) == (peer_id is None)`
abbrev pub has_one_route : Outgoing → Bool
has_one_route o = elim o.local_recipient [
  | none ↦ elim o.peer_id [ none ↦ false | some _ ↦ true ]
  | some _ ↦ elim o.peer_id [ none ↦ true | some _ ↦ false ]
]

module _ (json : Json) where
  -- the delivery into the inbox of a local recipient
  unfoldable pub deliver_local : Event → ℕ → ℕ → Method (Unit {0})
  unfolding insert_inbox
  deliver_local event identity now = do
    recipient ← gets (λ db. find? (is_recipient identity) db.accounts)
    elim recipient [
      | none ↦ raise recipient_not_found
      | some a ↦ do
        ensure_event_quota inbox_events a.id (len (json.dumps event))
        insert_inbox (record {
          event_id = event.event_id;
          recipient_account_id = a.id;
          origin_server_id = event.origin_server_id;
          event_json = json.dumps event;
          accepted_at = now;
          delivered_at = none;
          read_at = none;
        })
    ]

  -- the route and the entry of the outbox for a remote recipient
  unfoldable pub enqueue_remote : Event → String → ℕ → Method (Unit {0})
  enqueue_remote event peer_id now = do
    routed ← gets (λ db. any_row (λ (r : RouteRow). str_eq r.event_id event.event_id) db.routes)
    known ← gets (λ db. any_row (λ (p : PeerRow). str_eq p.peer_id peer_id) db.peers)
    raise_if (routed || not known) integrity_error
    modify (λ db. record db {
      routes = record { event_id = event.event_id; peer_id = peer_id } ∷ db.routes;
    })
    queued ← gets (λ db. any_row (λ (q : OutboxRow). str_eq q.event_id event.event_id) db.outbox)
    raise_if queued integrity_error
    modify (λ db. record db {
      outbox =
          record {
            event_id = event.event_id;
            peer_id = peer_id;
            event_json = json.dumps event;
            attempts = 0;
            next_attempt_at = now;
            last_error = none;
          }
          ∷ db.outbox;
    })

  -- a request that was stored before: the stored event comes back, and nothing is sent again
  unfoldable pub resume : Outgoing → SentRow → Method (Event × State × Bool)
  resume o existing = do
    let prior = json.loads existing.event_json
    raise_if (not (str_eq existing.target o.target && comparable prior o.event))
        idempotency_conflict
    pure (prior, existing.state, true)

  -- the row of a new request
  abbrev pub sent_row : Outgoing → ℕ → SentRow
  sent_row o now = record {
    event_id = o.event.event_id;
    account_id = o.account_id;
    client_event_id = o.client_event_id;
    target = o.target;
    event_json = json.dumps o.event;
    state = first_state o;
    created_at = now;
    updated_at = now;
  }

  -- to the local inbox, or to the outbox
  unfoldable pub dispatch : Outgoing → ℕ → Method (Unit {0})
  dispatch o now = elim o.local_recipient [
    | some identity ↦ deliver_local o.event identity now
    | none ↦ elim o.peer_id [ none ↦ raise integrity_error | some p ↦ enqueue_remote o.event p now ]
  ]

  unfoldable pub persist : Outgoing → ℕ → Method (Event × State × Bool)
  persist o now = do
    advance_counter o
    ensure_event_quota sent_events o.account_id (len (json.dumps o.event))
    insert_sent (sent_row o now)
    dispatch o now
    pure (o.event, first_state o, false)

  unfoldable pub create_outgoing_event : Outgoing → ℕ → Method (Event × State × Bool)
  create_outgoing_event o now = do
    raise_if (not (has_one_route o)) invalid_route
    transaction (do
      modify (cleanup_expired json now)
      existing ← gets (λ db. find? (is_request o) db.sent)
      elim existing [ some s ↦ resume o s | none ↦ persist o now ])
