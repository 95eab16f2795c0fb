-- ===== src/Store/Incoming/Accepted.antt =====
-- What an event that a peer delivers can do to the inbox.
use Prim.Native.String.{len}
use home_assistant_chat_comp.Prelude.{
  ℕ, ◌≤◌, String, ◌≡◌, ap, Bool, true, false, none, some, List, arith, length, find?, eq_refl,
  eq_iff, str_eq, Option-cases, inl, inr,
}
use home_assistant_chat_comp.Protocol.{max_account_events}
use home_assistant_chat_comp.Schema.{Db, AccountRow, InboxRow}
use home_assistant_chat_comp.Schema.Event.{Json, Event}
use home_assistant_chat_comp.Exec.{ok, err, event_quota_exceeded}
use home_assistant_chat_comp.Store.Cleanup.{
  cleanup_expired, ensure_event_quota, inbox_events, inbox_texts,
}
use home_assistant_chat_comp.Store.Outgoing.{is_recipient}
use home_assistant_chat_comp.Store.Outgoing.Effects.{ensure_event_quota-db}
use home_assistant_chat_comp.Store.Incoming.{is_same_event, accept_federated_event}

-- `WHERE event_id = ?`, the primary key of `inbox_events`
abbrev pub has_id : String → InboxRow → Bool
has_id id i = str_eq i.event_id id

same_lookup :
    (a b : String) (rows : List InboxRow)
    → str_eq a b ≡ true
    → find? (has_id a) rows ≡ find? (has_id b) rows
same_lookup a b rows h = ap (λ x. find? (has_id x) rows) ((eq_iff a b).0 h)

module _ (json : Json) (peer : String) (e : Event) where
  -- the inbox has the event, as that peer's
  abbrev holds_event : Db → Bool
  holds_event db = elim (find? (has_id e.event_id) db.inbox) [
    | none ↦ false
    | some i ↦ is_same_event json peer e i
  ]

  accepted-holds :
      (now : ℕ) (duplicate : Bool) (db db' : Db)
      → accept_federated_event json peer e now db ≡ (ok duplicate, db')
      → holds_event db' ≡ true
  unfolding accept_federated_event find?
  accepted-holds now duplicate db db' h =
      let swept = cleanup_expired json now db in
      elim (Option-cases (find? (is_recipient e.recipient_number) swept.accounts)) [
        | inl nobody ↦ ground arith
        | inr (row, found) ↦ ground (
          arith,
          ensure_event_quota-db inbox_events row.id (len (json.dumps e)) swept,
          eq_refl e.event_id,
          eq_refl peer,
          eq_refl (json.dumps e),
        )
      ]

  -- After an event was accepted, now or before, the inbox holds it under its id, as that peer's.
  pub accepted_is_stored :
      (now : ℕ) (duplicate : Bool) (db db' : Db)
      → accept_federated_event json peer e now db ≡ (ok duplicate, db')
      → (i : InboxRow) × (find? (has_id e.event_id) db'.inbox ≡ some i)
        × (i.origin_server_id ≡ peer)
        × (i.event_json ≡ json.dumps e)
  accepted_is_stored now duplicate db db' h =
      let held = accepted-holds now duplicate db db' h in
      elim (Option-cases (find? (has_id e.event_id) db'.inbox)) [
        | inl gone ↦ absurd (ground arith)
        | inr (i, found) ↦ (
          i,
          found,
          ground (arith, eq_iff i.origin_server_id peer),
          ground (arith, eq_iff i.event_json (json.dumps e)),
        )
      ]

  -- An event that is in the inbox, and has not expired, is not replaced by any delivery, whether
  -- that succeeds or not.
  accepted_is_kept :
      (now : ℕ) (id : String) (i : InboxRow) (db : Db)
      → find? (has_id id) (cleanup_expired json now db).inbox ≡ some i
      → find? (has_id id) (accept_federated_event json peer e now db).1.inbox ≡ some i
  unfolding accept_federated_event find?
  accepted_is_kept now id i db h =
      let swept = cleanup_expired json now db in
      elim (Option-cases (find? (is_recipient e.recipient_number) swept.accounts)) [
        | inl nobody ↦ ground arith
        | inr (row, found) ↦ ground (
          arith,
          ensure_event_quota-db inbox_events row.id (len (json.dumps e)) swept,
          eq_iff e.event_id id,
          same_lookup e.event_id id swept.inbox,
        )
      ]

  -- While the recipient's inbox is full every event is refused, one that is stored already too: the
  -- test of the quota comes before the test for a duplicate.
  full_inbox_refuses :
      (now : ℕ) (a : AccountRow) (db : Db)
      → find? (is_recipient e.recipient_number) (cleanup_expired json now db).accounts ≡ some a
      → max_account_events ≤ length (inbox_texts a.id (cleanup_expired json now db).inbox)
      → accept_federated_event json peer e now db
        ≡ (err event_quota_exceeded, cleanup_expired json now db)
  unfolding accept_federated_event ensure_event_quota
  full_inbox_refuses now a db ha full = ground arith
