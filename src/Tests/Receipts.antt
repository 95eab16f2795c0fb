-- ===== src/Tests/Receipts.antt =====
-- A message that is read, and the receipt of it.
use Prim.Native.Nat.{max}
use home_assistant_chat_comp.Prelude.{
  ◌≤◌, String, ◌≡◌, refl, ◌⊎◌, none, some, true, false, [], ◌∷◌, find?, any_row,
}
use home_assistant_chat_comp.Schema.{Db, State, SentRow, InboxRow}
use home_assistant_chat_comp.Schema.Event.{Receipted}
use home_assistant_chat_comp.Exec.{ok}
use home_assistant_chat_comp.Store.Receipts.{
  is_entry, is_event, prior_rank, mark_receipt, accept_federated_receipt,
}
use home_assistant_chat_comp.Store.Receipts.Marks.{
  knows_origin, mark_receipt_progress, mark_receipt_monotone,
}
use home_assistant_chat_comp.Store.Receipts.Federated.{
  is_routed, accept_federated_receipt_monotone, accept_federated_receipt_lem,
}
use home_assistant_chat_comp.Store.States.{sent_state, opt_rank, entry_rank}
use home_assistant_chat_comp.Tests.Data.{db, json, receipt}

abbrev entry : InboxRow
entry = record {
  event_id = "evt_9";
  recipient_account_id = "bob";
  origin_server_id = "srv_b";
  event_json = "event evt_9";
  accepted_at = 1000;
  delivered_at = none;
  read_at = none;
}

abbrev inbox_db : Db
inbox_db = record db { inbox = entry ∷ [] }

-- the database after Bob has read the message
abbrev read_db : Db
read_db = (mark_receipt json "r1" "r2" "bob" "evt_9" Receipted.read 1500 inbox_db).1

entry_found : find? (is_entry "bob" "evt_9") inbox_db.inbox ≡ some entry
unfolding find?
entry_found = refl

origin_known : knows_origin entry inbox_db ≡ true
unfolding any_row
origin_known = refl

mark_receipt_progress_example :
    ((mark_receipt json "r1" "r2" "bob" "evt_9" Receipted.read 1500 inbox_db).0 ≡ ok true)
    × (entry_rank "bob" "evt_9" read_db ≡ some (max (prior_rank entry) 2))
mark_receipt_progress_example =
    mark_receipt_progress json "r1" "r2" "bob" "evt_9" Receipted.read 1500 entry inbox_db
      entry_found origin_known

-- a message that was sent to the peer
abbrev row : SentRow
row = record {
  event_id = "evt_1";
  account_id = "alice";
  client_event_id = "c1";
  target = "22222222";
  event_json = "event evt_1";
  state = State.accepted;
  created_at = 1000;
  updated_at = 1000;
}

abbrev sent_id : String
sent_id = "evt_1"

abbrev sent_db : Db
sent_db = record db {
  sent = row ∷ [];
  routes = record { event_id = "evt_1"; peer_id = "srv_b" } ∷ [];
}

mark_receipt_monotone_example :
    opt_rank (sent_state "evt_1" sent_db)
    ≤ opt_rank (
        sent_state "evt_1"
          (mark_receipt json "r1" "r2" "bob" "evt_1" Receipted.read 1500 sent_db).1)
mark_receipt_monotone_example =
    mark_receipt_monotone json "r1" "r2" "bob" "evt_1" "evt_1" Receipted.read 1500 sent_db

-- the database after the receipt of the reading
abbrev reported_db : Db
reported_db = (accept_federated_receipt json "srv_b" (receipt Receipted.read) 1500 sent_db).1

event_routed : is_routed "srv_b" "evt_1" sent_db ≡ true
unfolding any_row
event_routed = refl

event_found : find? (is_event "evt_1") sent_db.sent ≡ some row
unfolding find?
event_found = refl

accept_federated_receipt_lem_example :
    ((accept_federated_receipt json "srv_b" (receipt Receipted.read) 1500 sent_db).0 ≡ ok false)
    × (sent_state "evt_1" reported_db ≡ some State.read)
    × (accept_federated_receipt json "srv_b" (receipt Receipted.read) 1600 reported_db
        ≡ (ok true, reported_db))
accept_federated_receipt_lem_example =
    accept_federated_receipt_lem json "srv_b" (receipt Receipted.read) 1500 1600 row sent_db
      event_routed event_found refl

accept_federated_receipt_monotone_example :
    (opt_rank (sent_state "evt_1" sent_db) ≤ opt_rank (sent_state "evt_1" reported_db))
    × ((sent_id ≡ sent_id) ⊎ (sent_state "evt_1" reported_db ≡ sent_state "evt_1" sent_db))
accept_federated_receipt_monotone_example =
    accept_federated_receipt_monotone json "srv_b" (receipt Receipted.read) "evt_1" 1500 sent_db
