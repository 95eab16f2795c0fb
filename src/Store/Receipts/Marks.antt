-- ===== src/Store/Receipts/Marks.antt =====
-- What `mark_receipt` does to the entry of the inbox and to the state that the sender sees.
use Prim.Native.Nat.{max}
use home_assistant_chat_comp.Prelude.{
  ℕ, ◌≤◌, List, String, ◌||◌, ◌&&◌, any_row, str_eq, ◌≡◌, refl, Bool, true, none, some, arith,
  find?, find?-update, find?-hits, update_where, ltb, Option-cases, inl, inr,
}
use home_assistant_chat_comp.Schema.{Db, State, PeerRow, SentRow, InboxRow}
use home_assistant_chat_comp.Schema.Event.{Json, Receipted}
use home_assistant_chat_comp.Exec.{ok}
use home_assistant_chat_comp.Store.Receipts.{
  is_entry, is_event, rank, state_of, prior_rank, receipt_rank, stamp, advance_sent, queue_receipt,
  report, progress, mark_receipt,
}
use home_assistant_chat_comp.Store.States.{sent_state, opt_rank, entry_rank}

-- A mark raises the rank of an entry to that of the marked state.
prior_rank-stamp :
    (state : Receipted) (now : ℕ) (i : InboxRow)
    → ltb (prior_rank i) (receipt_rank state) ≡ true
    → prior_rank (stamp state now i) ≡ receipt_rank state
unfolding prior_rank stamp
prior_rank-stamp Receipted.delivered now i h = ground arith
prior_rank-stamp Receipted.read now i h = ground arith

opt_rank-advance :
    (desired : State) (now : ℕ) (id other : String) (sent : List SentRow)
    → elim (find? (is_event other) sent) [ none ↦ 0 | some s ↦ rank s.state ]
      ≤ elim (find? (is_event other) (advance_sent desired now id sent)) [
        | none ↦ 0
        | some s ↦ rank s.state
      ]
opt_rank-advance desired now id other sent = ground (
  arith,
  find?-update (is_event other)
      (λ (s : SentRow). is_event id s && ltb (rank s.state) (rank desired))
      (λ s. record s { state = desired; updated_at = now }) sent (λ s. refl),
)

stamp-is_entry :
    (a e : String) (state : Receipted) (now : ℕ) (i : InboxRow)
    → is_entry a e (stamp state now i) ≡ is_entry a e i
unfolding stamp
stamp-is_entry a e Receipted.delivered now i = refl
stamp-is_entry a e Receipted.read now i = refl

pub stamp-columns :
    (state : Receipted) (now : ℕ) (i : InboxRow)
    → ((stamp state now i).recipient_account_id ≡ i.recipient_account_id)
      × ((stamp state now i).event_json ≡ i.event_json)
unfolding stamp
stamp-columns Receipted.delivered now i = (refl, refl)
stamp-columns Receipted.read now i = (refl, refl)

-- the origin is this server or a peer that the table has
abbrev pub knows_origin : InboxRow → Db → Bool
knows_origin i db =
    str_eq i.origin_server_id db.server_id
    || any_row (λ (p : PeerRow). str_eq p.peer_id i.origin_server_id) db.peers

module _ (json : Json) (first second : String) where
  -- Reporting to the origin touches neither table.
  report-tables :
      (i : InboxRow) (state : Receipted) (now : ℕ) (db : Db)
      → ((report json first second i state now db).1.inbox ≡ db.inbox)
        × ((report json first second i state now db).1.sent ≡ db.sent)
  unfolding report queue_receipt
  report-tables i Receipted.delivered now db = ground arith
  report-tables i Receipted.read now db = ground arith

  report-ok :
      (i : InboxRow) (state : Receipted) (now : ℕ) (db : Db)
      → any_row (λ (p : PeerRow). str_eq p.peer_id i.origin_server_id) db.peers ≡ true
      → (report json first second i state now db).0 ≡ ok tt
  unfolding report queue_receipt
  report-ok i Receipted.delivered now db h = ground arith
  report-ok i Receipted.read now db h = ground arith

  -- the database after the two updates of a mark
  abbrev marked : String → String → Receipted → ℕ → Db → Db
  marked a e state now db = record db {
    inbox = update_where (is_entry a e) (stamp state now) db.inbox;
    sent = advance_sent (state_of state) now e db.sent;
  }

  pub progress-tables :
      (a e : String) (i : InboxRow) (state : Receipted) (now : ℕ) (db : Db)
      → let db' = (progress json first second a e i state now db).1 in
        (db'.inbox ≡ update_where (is_entry a e) (stamp state now) db.inbox)
        × (db'.sent ≡ advance_sent (state_of state) now e db.sent)
  unfolding progress
  progress-tables a e i state now db =
      ground (arith, report-tables i state now (marked a e state now db))

  progress-ok :
      (a e : String) (i : InboxRow) (state : Receipted) (now : ℕ) (db : Db)
      → knows_origin i db ≡ true
      → (progress json first second a e i state now db).0 ≡ ok tt
  unfolding progress
  progress-ok a e i state now db h = ground (arith, report-ok i state now (marked a e state now db))

  -- A mark on an entry of the account's inbox whose origin is known succeeds, and the entry's rank
  -- becomes the higher of its own and of the marked state's.
  pub mark_receipt_progress :
      (a e : String) (state : Receipted) (now : ℕ) (i : InboxRow) (db : Db)
      → find? (is_entry a e) db.inbox ≡ some i
      → knows_origin i db ≡ true
      → let (r, db') = mark_receipt json first second a e state now db in
        (r ≡ ok true) × (entry_rank a e db' ≡ some (max (prior_rank i) (receipt_rank state)))
  unfolding mark_receipt
  mark_receipt_progress a e state now i db found known = ground (
    arith,
    progress-ok a e i state now db known,
    progress-tables a e i state now db,
    find?-update (is_entry a e) (is_entry a e) (stamp state now) db.inbox
        (λ i. stamp-is_entry a e state now i),
    find?-hits (is_entry a e) db.inbox,
    prior_rank-stamp state now i,
  )

  -- A mark lowers the rank of no sent event, whether it succeeds or not.
  pub mark_receipt_monotone :
      (a e other : String) (state : Receipted) (now : ℕ) (db : Db)
      → opt_rank (sent_state other db)
        ≤ opt_rank (sent_state other (mark_receipt json first second a e state now db).1)
  unfolding mark_receipt
  mark_receipt_monotone a e other state now db =
      elim (Option-cases (find? (is_entry a e) db.inbox)) [
        | inl gone ↦ ground arith
        | inr (i, found) ↦ ground (
          arith,
          progress-tables a e i state now db,
          opt_rank-advance (state_of state) now e other db.sent,
        )
      ]

  -- A mark at or below the rank of the entry does nothing.
  mark_receipt-skip :
      (a e : String) (state : Receipted) (later r : ℕ) (db : Db)
      → entry_rank a e db ≡ some r
      → receipt_rank state ≤ r
      → mark_receipt json first second a e state later db ≡ (ok true, db)
  unfolding mark_receipt
  mark_receipt-skip a e state later r db h le = ground arith

  -- After a mark on an entry of the account's inbox whose origin is known, the same mark again
  -- succeeds and changes nothing, at any later time.
  mark_receipt_again :
      (a e : String) (state : Receipted) (now later : ℕ) (i : InboxRow) (db : Db)
      → find? (is_entry a e) db.inbox ≡ some i
      → knows_origin i db ≡ true
      → let db' = (mark_receipt json first second a e state now db).1 in
        mark_receipt json first second a e state later db' ≡ (ok true, db')
  mark_receipt_again a e state now later i db found known =
      let db' = (mark_receipt json first second a e state now db).1 in
      mark_receipt-skip a e state later (max (prior_rank i) (receipt_rank state)) db'
        (mark_receipt_progress a e state now i db found known).1 (omega arith)
