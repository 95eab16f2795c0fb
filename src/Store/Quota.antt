-- ===== src/Store/Quota.antt =====
-- Every method that writes events keeps every account within its quota.
use Prim.Native.String.{len}
use home_assistant_chat_comp.Prelude.{
  ℕ, String, ◌≡◌, refl, Bool, ◌∷◌, arith, find?, Option-cases, inl, inr, ◌&&◌, ltb,
}
use home_assistant_chat_comp.Schema.{Db, State, SentRow, InboxRow}
use home_assistant_chat_comp.Schema.Event.{Json, Event, Receipt, Receipted}
use home_assistant_chat_comp.Exec.{ok, err, Result, rollback}
use home_assistant_chat_comp.Store.Cleanup.{
  cleanup_expired, sent_texts, inbox_texts, inbox_events, sent_events,
}
use home_assistant_chat_comp.Store.Cleanup.Bounds.{
  Fits, Fits-less, sent_texts-delete, inbox_texts-delete, sent_texts-update, inbox_texts-update,
  sent_texts-insert, inbox_texts-insert,
}
use home_assistant_chat_comp.Store.Outgoing.{
  Outgoing, is_recipient, is_request, deliver_local, enqueue_remote, dispatch, insert_sent,
  advance_counter, sent_row, persist, resume, create_outgoing_event,
}
use home_assistant_chat_comp.Store.Outgoing.Effects.{
  counted, ensure_event_quota-db, dispatch-tables,
}
use home_assistant_chat_comp.Store.Incoming.{inbox_row, accept_federated_event, inbox}
use home_assistant_chat_comp.Store.Receipts.{
  is_event, is_entry, rank, state_of, stamp, mark_receipt, accept_federated_receipt,
}
use home_assistant_chat_comp.Store.Receipts.Marks.{progress-tables, stamp-columns}
use home_assistant_chat_comp.Store.Outbox.{
  is_unsent, due_outbox, due_receipts, mark_outbox_delivered, mark_outbox_failed,
}

-- Both tables of events are within the quota of the account.
pub record WithinQuota (a : String) (db : Db) : Type 0 where
  pub sent : Fits (sent_texts a db.sent)
  pub inbox : Fits (inbox_texts a db.inbox)

-- What holds before a transaction and after its success holds after it.
rollback-keeps :
    {A : Type 0} (P : Db → Type 0) (db : Db) (r : Result A × Db)
    → P db
    → ((x : A) (db' : Db) → r ≡ (ok x, db') → P db')
    → P (rollback db r).1
rollback-keeps P db (ok x, db') p h = h x db' refl
rollback-keeps P db (err e, db') p h = p

module _ (json : Json) (a : String) where
  cleanup_expired-WithinQuota :
      (now : ℕ) (db : Db) → WithinQuota a db → WithinQuota a (cleanup_expired json now db)
  unfolding cleanup_expired
  cleanup_expired-WithinQuota now db w = record {
    sent = Fits-less (sent_texts-delete a _ db.sent) w.sent;
    inbox = Fits-less (inbox_texts-delete a _ db.inbox) w.inbox;
  }

  -- the row of a local delivery
  abbrev delivered_row : Event → String → ℕ → InboxRow
  delivered_row e recipient now = inbox_row json e.origin_server_id recipient e now

  deliver_local-inbox :
      (e : Event) (n now : ℕ) (db : Db)
      → (deliver_local json e n now db).0 ≡ ok tt
      → Fits (inbox_texts a db.inbox)
      → Fits (inbox_texts a (deliver_local json e n now db).1.inbox)
  unfolding deliver_local
  deliver_local-inbox e n now db h f = elim (Option-cases (find? (is_recipient n) db.accounts)) [
    | inl nobody ↦ ground arith
    | inr (row, found) ↦ ground (
      arith,
      ensure_event_quota-db inbox_events row.id (len (json.dumps e)) db,
      inbox_texts-insert a (delivered_row e row.id now) row.id db,
    )
  ]

  enqueue_remote-inbox :
      (e : Event) (p : String) (now : ℕ) (db : Db)
      → (enqueue_remote json e p now db).1.inbox ≡ db.inbox
  unfolding enqueue_remote
  enqueue_remote-inbox e p now db = ground arith

  dispatch-inbox :
      (o : Outgoing) (now : ℕ) (db : Db)
      → (dispatch json o now db).0 ≡ ok tt
      → Fits (inbox_texts a db.inbox)
      → Fits (inbox_texts a (dispatch json o now db).1.inbox)
  unfolding dispatch
  dispatch-inbox o now db h f = elim (Option-cases o.local_recipient) [
    | inl remote ↦ elim (Option-cases o.peer_id) [
      | inl nowhere ↦ ground arith
      | inr (p, e) ↦ ground (arith, enqueue_remote-inbox o.event p now db)
    ]
    | inr (n, e) ↦ ground (arith, deliver_local-inbox o.event n now db)
  ]

  -- the databases before the insertion of the event and before its dispatch
  abbrev with_counter : Outgoing → Db → Db
  with_counter o db = record db { devices = counted json o db.devices }

  abbrev with_event : Outgoing → ℕ → Db → Db
  with_event o now db = record db {
    devices = counted json o db.devices;
    sent = sent_row json o now ∷ db.sent;
  }

  persist-WithinQuota :
      (o : Outgoing) (now : ℕ) (db db' : Db) (r : Event × State × Bool)
      → persist json o now db ≡ (ok r, db')
      → WithinQuota a db
      → WithinQuota a db'
  unfolding persist advance_counter insert_sent
  persist-WithinQuota o now db db' r h w = ground (
    arith,
    ensure_event_quota-db sent_events o.account_id (len (json.dumps o.event)) (with_counter o db),
    sent_texts-insert a (sent_row json o now) o.account_id (with_counter o db),
    dispatch-tables json o now (with_event o now db),
    dispatch-inbox o now (with_event o now db),
  )

  create_outgoing_event-WithinQuota :
      (o : Outgoing) (now : ℕ) (db : Db)
      → WithinQuota a db
      → WithinQuota a (create_outgoing_event json o now db).1
  unfolding create_outgoing_event resume
  create_outgoing_event-WithinQuota o now db w =
      let swept = cleanup_expired json now db in
      elim (Option-cases (find? (is_request o) swept.sent)) [
        | inl fresh ↦ ground (
          arith,
          rollback-keeps (WithinQuota a) db (persist json o now swept) w (λ r db' h.
              persist-WithinQuota o now swept db' r h (cleanup_expired-WithinQuota now db w)),
        )
        | inr (s, found) ↦ ground (arith, cleanup_expired-WithinQuota now db w)
      ]

  accept_federated_event-WithinQuota :
      (peer : String) (e : Event) (now : ℕ) (db : Db)
      → WithinQuota a db
      → WithinQuota a (accept_federated_event json peer e now db).1
  unfolding accept_federated_event
  accept_federated_event-WithinQuota peer e now db w =
      let swept = cleanup_expired json now db in
      elim (Option-cases (find? (is_recipient e.recipient_number) swept.accounts)) [
        | inl nobody ↦ ground (arith, cleanup_expired-WithinQuota now db w)
        | inr (row, found) ↦ ground (
          arith,
          cleanup_expired-WithinQuota now db w,
          ensure_event_quota-db inbox_events row.id (len (json.dumps e)) swept,
          inbox_texts-insert a (inbox_row json peer row.id e now) row.id swept,
        )
      ]

  inbox-WithinQuota :
      (account : String) (limit now : ℕ) (db : Db)
      → WithinQuota a db
      → WithinQuota a (inbox json account limit now db).1
  unfolding inbox
  inbox-WithinQuota account limit now db w = ground (arith, cleanup_expired-WithinQuota now db w)

  -- A receipt changes states and times alone.
  mark_receipt-WithinQuota :
      (first second account event : String) (state : Receipted) (now : ℕ) (db : Db)
      → WithinQuota a db
      → WithinQuota a (mark_receipt json first second account event state now db).1
  unfolding mark_receipt
  mark_receipt-WithinQuota first second account event state now db w =
      elim (Option-cases (find? (is_entry account event) db.inbox)) [
        | inl gone ↦ ground arith
        | inr (i, found) ↦ ground (
          arith,
          progress-tables json first second account event i state now db,
          inbox_texts-update a (is_entry account event) (stamp state now) db.inbox
              (stamp-columns state now),
          sent_texts-update a
              (λ (s : SentRow). is_event event s && ltb (rank s.state) (rank (state_of state)))
              (λ s. record s { state = state_of state; updated_at = now }) db.sent
              (λ s. (refl, refl)),
        )
      ]

  accept_federated_receipt-WithinQuota :
      (peer : String) (receipt : Receipt) (now : ℕ) (db : Db)
      → WithinQuota a db
      → WithinQuota a (accept_federated_receipt json peer receipt now db).1
  unfolding accept_federated_receipt
  accept_federated_receipt-WithinQuota peer receipt now db w = ground (
    arith,
    sent_texts-update a (is_event receipt.event_id)
        (λ s. record s { state = state_of receipt.state; updated_at = now }) db.sent
        (λ s. (refl, refl)),
  )

  due_outbox-WithinQuota :
      (limit now : ℕ) (db : Db) → WithinQuota a db → WithinQuota a (due_outbox json limit now db).1
  unfolding due_outbox
  due_outbox-WithinQuota limit now db w = cleanup_expired-WithinQuota now db w

  due_receipts-WithinQuota :
      (limit now : ℕ) (db : Db)
      → WithinQuota a db
      → WithinQuota a (due_receipts json limit now db).1
  unfolding due_receipts
  due_receipts-WithinQuota limit now db w = cleanup_expired-WithinQuota now db w

mark_outbox_delivered-WithinQuota :
    (a event : String) (now : ℕ) (db : Db)
    → WithinQuota a db
    → WithinQuota a (mark_outbox_delivered event now db).1
unfolding mark_outbox_delivered
mark_outbox_delivered-WithinQuota a event now db w = ground (
  arith,
  sent_texts-update a (λ (s : SentRow). is_event event s && is_unsent s.state)
      (λ s. record s { state = State.accepted; updated_at = now }) db.sent (λ s. (refl, refl)),
)

mark_outbox_failed-WithinQuota :
    (a event : String) (attempts : ℕ) (error : String) (now : ℕ) (db : Db)
    → WithinQuota a db
    → WithinQuota a (mark_outbox_failed event attempts error now db).1
unfolding mark_outbox_failed
mark_outbox_failed-WithinQuota a event attempts error now db w = ground (
  arith,
  sent_texts-update a (is_event event) (λ s. record s { state = State.failed; updated_at = now })
      db.sent (λ s. (refl, refl)),
)

-- One call of a method that reads or writes the tables of events, by any client, peer or the
-- dispatcher, with what it returns left out.
pub data Step (json : Json) (db : Db) : Db → Type 0 where
  created : (o : Outgoing) (now : ℕ) → Step json db (create_outgoing_event json o now db).1
  received :
      (peer : String) (e : Event) (now : ℕ)
      → Step json db (accept_federated_event json peer e now db).1
  listed : (account : String) (limit now : ℕ) → Step json db (inbox json account limit now db).1
  marked :
      (first second account event : String) (state : Receipted) (now : ℕ)
      → Step json db (mark_receipt json first second account event state now db).1
  reported :
      (peer : String) (receipt : Receipt) (now : ℕ)
      → Step json db (accept_federated_receipt json peer receipt now db).1
  fetched : (limit now : ℕ) → Step json db (due_outbox json limit now db).1
  fetched_receipts : (limit now : ℕ) → Step json db (due_receipts json limit now db).1
  sent_on : (event : String) (now : ℕ) → Step json db (mark_outbox_delivered event now db).1
  put_off :
      (event : String) (attempts : ℕ) (error : String) (now : ℕ)
      → Step json db (mark_outbox_failed event attempts error now db).1

-- The databases that any interleaving of such calls reaches.
pub data Reach (json : Json) (db : Db) : Db → Type 0 where
  here : Reach json db db
  next : {db' db'' : Db} → Reach json db db' → Step json db' db'' → Reach json db db''

pub Step-WithinQuota :
    {json : Json} {db db' : Db} (a : String)
    → Step json db db'
    → WithinQuota a db
    → WithinQuota a db'
Step-WithinQuota {json} {db} a (created o now) w =
    create_outgoing_event-WithinQuota json a o now db w
Step-WithinQuota {json} {db} a (received peer e now) w =
    accept_federated_event-WithinQuota json a peer e now db w
Step-WithinQuota {json} {db} a (listed account limit now) w =
    inbox-WithinQuota json a account limit now db w
Step-WithinQuota {json} {db} a (marked first second account event state now) w =
    mark_receipt-WithinQuota json a first second account event state now db w
Step-WithinQuota {json} {db} a (reported peer receipt now) w =
    accept_federated_receipt-WithinQuota json a peer receipt now db w
Step-WithinQuota {json} {db} a (fetched limit now) w = due_outbox-WithinQuota json a limit now db w
Step-WithinQuota {json} {db} a (fetched_receipts limit now) w =
    due_receipts-WithinQuota json a limit now db w
Step-WithinQuota {json} {db} a (sent_on event now) w =
    mark_outbox_delivered-WithinQuota a event now db w
Step-WithinQuota {json} {db} a (put_off event attempts error now) w =
    mark_outbox_failed-WithinQuota a event attempts error now db w

-- Whatever clients, peers and the dispatcher do with events and receipts, in whatever order, an
-- account that is within its quota stays within it: at most 10,000 events and 64 MiB of event
-- texts, in what it sent and in its inbox.
pub Reach-WithinQuota :
    {json : Json} {db db' : Db} (a : String)
    → Reach json db db'
    → WithinQuota a db
    → WithinQuota a db'
Reach-WithinQuota a here w = w
Reach-WithinQuota a (next r step) w = Step-WithinQuota a step (Reach-WithinQuota a r w)
