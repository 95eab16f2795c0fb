-- ===== src/Store/Outbox/Marks.antt =====
-- What the marks of the outbox do to an entry and to the state of its event.
use native.Mathlib.Nat.{pow-le-pow_right}
use home_assistant_chat_comp.Prelude.{
  ℕ, ◌+◌, ◌≤◌, ◌^◌, String, ◌≡◌, refl, Bool, ◌&&◌, Option, none, some, arith, str_eq, ltb, leb, min,
  find?, find?-update, update_where, find?-delete_self, find?-sound, find?-hits, if◌then◌else◌,
}
use home_assistant_chat_comp.Protocol.{max_outbox_attempts}
use home_assistant_chat_comp.Schema.{Db, State, SentRow, OutboxRow}
use home_assistant_chat_comp.Store.Receipts.{is_event}
use home_assistant_chat_comp.Store.States.{sent_state, opt_rank}
use home_assistant_chat_comp.Store.Outbox.{
  is_due, is_unsent, backoff, retry_later, mark_outbox_delivered, mark_outbox_failed,
}

-- From the first attempt on, the wait is between 2 and 256 seconds, and never shorter after more
-- attempts.
backoff_bounds :
    (n m : ℕ) → 1 ≤ n → n ≤ m → (2 ≤ backoff n) × (backoff n ≤ backoff m) × (backoff m ≤ 256)
unfolding backoff
backoff_bounds n m h k =
    let low : 2 ^ 1 ≤ 2 ^ min n 8 =
      pow-le-pow_right (omega arith) {i = 1} {j = min n 8} (omega arith) in
    let mid : 2 ^ min n 8 ≤ 2 ^ min m 8 =
      pow-le-pow_right (omega arith) {i = min n 8} {j = min m 8} (omega arith) in
    let top : 2 ^ min m 8 ≤ 2 ^ 8 =
      pow-le-pow_right (omega arith) {i = min m 8} {j = 8} (omega arith) in
    (omega arith, omega arith, omega arith)

-- what a delivery makes of a state
abbrev pub settled : Option State → Option State
settled none = none
settled (some s) = some (if is_unsent s then State.accepted else s)

-- A delivery removes the entry from the outbox, makes the event accepted if it was queued or failed
-- and else leaves its state, and lowers the rank of no event.
pub mark_outbox_delivered_lem :
    (id other : String) (now : ℕ) (db : Db)
    → let (_, db') = mark_outbox_delivered id now db in
      (find? (λ (o : OutboxRow). str_eq o.event_id id) db'.outbox ≡ none)
      × (sent_state id db' ≡ settled (sent_state id db))
      × (opt_rank (sent_state other db) ≤ opt_rank (sent_state other db'))
unfolding mark_outbox_delivered
mark_outbox_delivered_lem id other now db = (
  find?-delete_self (λ (o : OutboxRow). str_eq o.event_id id) (λ o. str_eq o.event_id id) db.outbox
      (λ o h. h),
  ground (arith, found id, find?-hits (is_event id) db.sent),
  ground (arith, found other),
)
  where
    found :
        (e : String)
        → find? (is_event e) (
            update_where
              (λ (s : SentRow). is_event id s && is_unsent s.state)
              (λ s. record s { state = State.accepted; updated_at = now })
              db.sent)
          ≡ elim (find? (is_event e) db.sent) [
            | none ↦ none
            | some s ↦ some (
                if is_event id s && is_unsent s.state
                then record s { state = State.accepted; updated_at = now }
                else s)
          ]
    found e =
        find?-update (is_event e) (λ (s : SentRow). is_event id s && is_unsent s.state)
          (λ s. record s { state = State.accepted; updated_at = now }) db.sent (λ s. refl)

-- whether the outbox has an entry of an event that is due
abbrev pub due_entry : String → ℕ → Db → Option Bool
due_entry id now db = elim (find? (λ (o : OutboxRow). str_eq o.event_id id) db.outbox) [
  | none ↦ none
  | some o ↦ some (is_due now o)
]

-- For an event with an entry in the outbox and a row of sent events: after a failed attempt that
-- was not the last one, the entry is due from the moment on at which its wait is over, and the
-- state of the event is as before. After the last attempt the entry is never due again, and the
-- event is failed, whatever its state was.
pub mark_outbox_failed_lem :
    (id error : String) (attempts now later : ℕ) (o : OutboxRow) (s : SentRow) (db : Db)
    → find? (λ (o : OutboxRow). str_eq o.event_id id) db.outbox ≡ some o
    → find? (is_event id) db.sent ≡ some s
    → let (_, db') = mark_outbox_failed id attempts error now db in
      (due_entry id later db'
        ≡ some (ltb attempts max_outbox_attempts && leb (now + backoff attempts) later))
      × (sent_state id db'
          ≡ some (if leb max_outbox_attempts attempts then State.failed else s.state))
unfolding mark_outbox_failed
mark_outbox_failed_lem id error attempts now later o s db ho hs = (
  ground (
    arith,
    find?-sound (λ (o : OutboxRow). str_eq o.event_id id) db.outbox o ho,
    find?-update (λ (o : OutboxRow). str_eq o.event_id id) (λ o. str_eq o.event_id id)
        (retry_later attempts error now) db.outbox (λ o. refl),
  ),
  ground (
    arith,
    find?-sound (is_event id) db.sent s hs,
    find?-update (is_event id) (is_event id)
        (λ s. record s { state = State.failed; updated_at = now }) db.sent (λ s. refl),
  ),
)
