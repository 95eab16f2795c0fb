-- ===== src/Store/Frame.antt =====
-- The tables that the methods on events, devices and key packages leave alone: they record no nonce and
-- open no session.
pub mod Others
use home_assistant_chat_comp.Prelude.{
  ℕ, String, ◌≡◌, refl, Bool, true, false, List, [], ◌∷◌, Option, none, some, arith, find?, any_row,
  delete_where, update_where, Option-cases, inl, inr,
}
use home_assistant_chat_comp.Schema.{Db, DeviceRow, SessionRow, InboxRow, NonceRow}
use home_assistant_chat_comp.Schema.Event.{Json, Event, Receipt, Receipted, KeyPackage}
use home_assistant_chat_comp.Exec.{Result, ok, err, rollback}
use home_assistant_chat_comp.Store.Cleanup.{cleanup_expired, ensure_event_quota, inbox_events}
use home_assistant_chat_comp.Store.Outgoing.{
  Outgoing, is_recipient, is_request, deliver_local, enqueue_remote, dispatch, insert_sent,
  advance_counter, sent_row, persist, resume, create_outgoing_event,
}
use home_assistant_chat_comp.Store.Outgoing.Effects.{counted}
use home_assistant_chat_comp.Store.Incoming.{accept_federated_event, inbox}
use home_assistant_chat_comp.Store.Receipts.{
  is_entry, stamp, advance_sent, state_of, queue_receipt, report, progress, mark_receipt,
  accept_federated_receipt,
}
use home_assistant_chat_comp.Store.Outbox.{
  due_outbox, due_receipts, mark_outbox_delivered, mark_outbox_failed,
}
use home_assistant_chat_comp.Store.Quota.{
  Step, created, received, listed, marked, reported, fetched, fetched_receipts, sent_on, put_off,
}

-- The nonces are these, no session fits `q`, and `f` holds of the devices.
pub record IsQuiet (q : SessionRow → Bool) (n : List NonceRow) (f : List DeviceRow → Bool) (db : Db)
    : Type 0 where
  pub nonces : db.nonces ≡ n
  pub sessions : any_row q db.sessions ≡ false
  pub devices : f db.devices ≡ true

pub any_row-delete_false :
    (q p : SessionRow → Bool) (rows : List SessionRow)
    → any_row q rows ≡ false
    → any_row q (delete_where p rows) ≡ false
unfolding any_row delete_where
any_row-delete_false q p [] h = h
any_row-delete_false q p (r ∷ rows) h = ground (arith, any_row-delete_false q p rows)

IsQuiet-rollback :
    {A : Type 0} (q : SessionRow → Bool) (n : List NonceRow) (f : List DeviceRow → Bool) (db : Db)
    (r : Result A × Db)
    → IsQuiet q n f db
    → IsQuiet q n f r.1
    → IsQuiet q n f (rollback db r).1
IsQuiet-rollback q n f db (ok x, db') w h = h
IsQuiet-rollback q n f db (err e, db') w h = w

module _ (q : SessionRow → Bool) (n : List NonceRow) (f : List DeviceRow → Bool) (json : Json)
    (stable : (o : Outgoing) (ds : List DeviceRow)
      → f ds ≡ true
      → f (counted json o ds) ≡ true) where
  cleanup_expired-IsQuiet :
      (now : ℕ) (db : Db) → IsQuiet q n f db → IsQuiet q n f (cleanup_expired json now db)
  unfolding cleanup_expired
  cleanup_expired-IsQuiet now db w = record {
    nonces = w.nonces;
    sessions = any_row-delete_false q _ db.sessions w.sessions;
    devices = w.devices;
  }

  deliver_local-IsQuiet :
      (e : Event) (i now : ℕ) (db : Db)
      → IsQuiet q n f db
      → IsQuiet q n f (deliver_local json e i now db).1
  unfolding deliver_local ensure_event_quota
  deliver_local-IsQuiet e i now db w = ground arith

  enqueue_remote-IsQuiet :
      (e : Event) (p : String) (now : ℕ) (db : Db)
      → IsQuiet q n f db
      → IsQuiet q n f (enqueue_remote json e p now db).1
  unfolding enqueue_remote
  enqueue_remote-IsQuiet e p now db w = ground arith

  dispatch-IsQuiet :
      (o : Outgoing) (now : ℕ) (db : Db)
      → IsQuiet q n f db
      → IsQuiet q n f (dispatch json o now db).1
  unfolding dispatch
  dispatch-IsQuiet o now db w = elim (Option-cases o.local_recipient) [
    | inl remote ↦ elim (Option-cases o.peer_id) [
      | inl nowhere ↦ ground arith
      | inr (p, e) ↦ ground (arith, enqueue_remote-IsQuiet o.event p now db)
    ]
    | inr (i, e) ↦ ground (arith, deliver_local-IsQuiet o.event i now db)
  ]

  persist-IsQuiet :
      (o : Outgoing) (now : ℕ) (db : Db)
      → IsQuiet q n f db
      → IsQuiet q n f (persist json o now db).1
  unfolding persist advance_counter insert_sent ensure_event_quota
  persist-IsQuiet o now db w = ground (
    arith,
    stable o db.devices w.devices,
    dispatch-IsQuiet o now
        (record db { devices = counted json o db.devices; sent = sent_row json o now ∷ db.sent }),
  )

  create_outgoing_event-IsQuiet :
      (o : Outgoing) (now : ℕ) (db : Db)
      → IsQuiet q n f db
      → IsQuiet q n f (create_outgoing_event json o now db).1
  unfolding create_outgoing_event resume
  create_outgoing_event-IsQuiet o now db w =
      let swept = cleanup_expired json now db in
      let v = cleanup_expired-IsQuiet now db w in
      elim (Option-cases (find? (is_request o) swept.sent)) [
        | inl fresh ↦ ground (
          arith,
          IsQuiet-rollback q n f db (persist json o now swept) w (persist-IsQuiet o now swept v),
        )
        | inr (s, found) ↦ ground (arith, v)
      ]

  accept_federated_event-IsQuiet :
      (peer : String) (e : Event) (now : ℕ) (db : Db)
      → IsQuiet q n f db
      → IsQuiet q n f (accept_federated_event json peer e now db).1
  unfolding accept_federated_event ensure_event_quota
  accept_federated_event-IsQuiet peer e now db w =
      let swept = cleanup_expired json now db in
      let v = cleanup_expired-IsQuiet now db w in
      elim (Option-cases (find? (is_recipient e.recipient_number) swept.accounts)) [
        | inl nobody ↦ ground (arith, v)
        | inr (row, found) ↦ ground (arith, v)
      ]

  inbox-IsQuiet :
      (account : String) (limit now : ℕ) (db : Db)
      → IsQuiet q n f db
      → IsQuiet q n f (inbox json account limit now db).1
  unfolding inbox
  inbox-IsQuiet account limit now db w = ground (arith, cleanup_expired-IsQuiet now db w)

  queue_receipt-IsQuiet :
      (id peer : String) (e : Event) (state : Receipted) (now : ℕ) (db : Db)
      → IsQuiet q n f db
      → IsQuiet q n f (queue_receipt json id peer e state now db).1
  unfolding queue_receipt
  queue_receipt-IsQuiet id peer e state now db w = ground arith

  report-IsQuiet :
      (first second : String) (i : InboxRow) (state : Receipted) (now : ℕ) (db : Db)
      → IsQuiet q n f db
      → IsQuiet q n f (report json first second i state now db).1
  unfolding report queue_receipt
  report-IsQuiet first second i Receipted.delivered now db w = ground arith
  report-IsQuiet first second i Receipted.read now db w = ground arith

  progress-IsQuiet :
      (first second account event : String) (i : InboxRow) (state : Receipted) (now : ℕ) (db : Db)
      → IsQuiet q n f db
      → IsQuiet q n f (progress json first second account event i state now db).1
  unfolding progress
  progress-IsQuiet first second account event i state now db w = ground (
    arith,
    report-IsQuiet first second i state now (record db {
      inbox = update_where (is_entry account event) (stamp state now) db.inbox;
      sent = advance_sent (state_of state) now event db.sent;
    }),
  )

  mark_receipt-IsQuiet :
      (first second account event : String) (state : Receipted) (now : ℕ) (db : Db)
      → IsQuiet q n f db
      → IsQuiet q n f (mark_receipt json first second account event state now db).1
  unfolding mark_receipt
  mark_receipt-IsQuiet first second account event state now db w =
      elim (Option-cases (find? (is_entry account event) db.inbox)) [
        | inl gone ↦ ground arith
        | inr (i, found) ↦
            ground (arith, progress-IsQuiet first second account event i state now db)
      ]

  accept_federated_receipt-IsQuiet :
      (peer : String) (receipt : Receipt) (now : ℕ) (db : Db)
      → IsQuiet q n f db
      → IsQuiet q n f (accept_federated_receipt json peer receipt now db).1
  unfolding accept_federated_receipt
  accept_federated_receipt-IsQuiet peer receipt now db w = ground arith

  pub Step-IsQuiet : {db db' : Db} → Step json db db' → IsQuiet q n f db → IsQuiet q n f db'
  unfolding due_outbox due_receipts mark_outbox_delivered mark_outbox_failed
  Step-IsQuiet {db} (created o now) w = create_outgoing_event-IsQuiet o now db w
  Step-IsQuiet {db} (received peer e now) w = accept_federated_event-IsQuiet peer e now db w
  Step-IsQuiet {db} (listed account limit now) w = inbox-IsQuiet account limit now db w
  Step-IsQuiet {db} (marked first second account event state now) w =
      mark_receipt-IsQuiet first second account event state now db w
  Step-IsQuiet {db} (reported peer receipt now) w =
      accept_federated_receipt-IsQuiet peer receipt now db w
  Step-IsQuiet {db} (fetched limit now) w = cleanup_expired-IsQuiet now db w
  Step-IsQuiet {db} (fetched_receipts limit now) w = cleanup_expired-IsQuiet now db w
  Step-IsQuiet {db} (sent_on event now) w = ground arith
  Step-IsQuiet {db} (put_off event attempts error now) w = ground arith
