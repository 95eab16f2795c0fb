-- ===== src/Tests/Outboxes.antt =====
-- Outboxes with due work.
use home_assistant_chat_comp.Prelude.{
  false, ◌+◌, ◌≤◌, ◌<◌, String, ◌≡◌, refl, ◌&&◌, none, some, true, List, [], ◌∷◌, arith, length,
  All, str_eq, ltb, leb, find?, any_row,
}
use home_assistant_chat_comp.Protocol.{max_outbox_per_peer, max_outbox_attempts}
use home_assistant_chat_comp.Schema.{Db, State, SentRow, OutboxRow, ReceiptRow}
use home_assistant_chat_comp.Schema.Event.{Receipted}
use home_assistant_chat_comp.Store.Receipts.{is_event}
use home_assistant_chat_comp.Store.Outbox.{
  Work, outbox_peer, peer_count, is_due, due_rows, due_receipt_rows, backoff, mark_outbox_delivered,
  mark_outbox_failed,
}
use home_assistant_chat_comp.Store.Outbox.Pages.{due_rows_page, due_rows_progress}
use home_assistant_chat_comp.Store.Outbox.Marks.{settled, due_entry, mark_outbox_failed_lem}
use home_assistant_chat_comp.Store.States.{sent_state}
use home_assistant_chat_comp.Schema.Event.{Event}
use home_assistant_chat_comp.Exec.{ok}
use home_assistant_chat_comp.Store.Peers.{Peer, get_peer}
use home_assistant_chat_comp.Federation.{deliver_event, attempt, settle_event}
use home_assistant_chat_comp.Federation.Delivery.{
  deliver_event-true, deliver_event-false, deliver_event-raised,
}
use home_assistant_chat_comp.Prelude.{◌⊎◌}
use home_assistant_chat_comp.Security.{sign_federation_request}
use home_assistant_chat_comp.Text.Parts.{decimal, digits_onto}
use home_assistant_chat_comp.Wire.{Codec, Fields, load_error}
use home_assistant_chat_comp.Federation.Request.{
  Network, io_error, response, answered, raised, posted, signed_headers, signed_json_request,
  post_event, read_exchange, remote_result,
}
use home_assistant_chat_comp.Tests.Api.{codec}
use home_assistant_chat_comp.Tests.Federation.{crypto}
use home_assistant_chat_comp.Tests.Data.{message, db}

abbrev row : SentRow
row = record {
  event_id = "evt_1";
  account_id = "alice";
  client_event_id = "c1";
  target = "22222222";
  event_json = "event evt_1";
  state = State.queued;
  created_at = 1000;
  updated_at = 1000;
}

abbrev entry : OutboxRow
entry = record {
  event_id = "evt_1";
  peer_id = "srv_b";
  event_json = "event evt_1";
  attempts = 2;
  next_attempt_at = 1000;
  last_error = none;
}

abbrev queued_db : Db
queued_db = record db { sent = row ∷ []; outbox = entry ∷ [] }

abbrev due : List OutboxRow
due = due_rows 1500 20 (entry ∷ [])

due_rows_page_example :
    (length due ≤ 20)
    × ((p : String) → peer_count outbox_peer p due ≤ max_outbox_per_peer)
    × All (λ (o : OutboxRow). (o.next_attempt_at ≤ 1500) × (o.attempts < max_outbox_attempts)) due
due_rows_page_example = due_rows_page 1500 20 (entry ∷ [])

entry_due : any_row (is_due 1500) (entry ∷ []) ≡ true
unfolding any_row
entry_due = refl

due_rows_progress_example : 0 < length due
due_rows_progress_example = due_rows_progress 1500 20 (entry ∷ []) (omega arith) entry_due

abbrev report : ReceiptRow
report = record {
  receipt_id = "rcp_1";
  event_id = "evt_9";
  state = Receipted.read;
  peer_id = "srv_b";
  receipt_json = "receipt rcp_1";
  attempts = 0;
  next_attempt_at = 1000;
  last_error = none;
}

abbrev due_reports : List ReceiptRow
due_reports = due_receipt_rows 1500 20 (report ∷ [])

abbrev failed_db : Db
failed_db = (mark_outbox_failed "evt_1" 3 "timeout" 1500 queued_db).1

entry_found : find? (λ (o : OutboxRow). str_eq o.event_id "evt_1") queued_db.outbox ≡ some entry
unfolding find?
entry_found = refl

row_found : find? (is_event "evt_1") queued_db.sent ≡ some row
unfolding find?
row_found = refl

mark_outbox_failed_lem_example :
    (due_entry "evt_1" 1600 failed_db
      ≡ some (ltb 3 max_outbox_attempts && leb (1500 + backoff 3) 1600))
    × (sent_state "evt_1" failed_db ≡ some State.queued)
mark_outbox_failed_lem_example =
    mark_outbox_failed_lem "evt_1" "timeout" 3 1500 1600 entry row queued_db entry_found row_found

abbrev item : Work Event
item = record { id = "evt_1"; peer_id = "srv_b"; body = message "evt_1"; attempts = 2 }

-- a network on which every request succeeds, and one on which none does
abbrev up : Network
up _ _ = response 200 (123 ∷ 125 ∷ [])

abbrev down : Network
down _ _ = io_error "TimeoutError"

-- a codec that fails on every text with an error of its own
abbrev failing : Codec
failing = record codec { loads_bytes = λ _. load_error }

abbrev own : String
own = "nonce_of_the_run_"

abbrev taken_db : Db
taken_db = (deliver_event codec crypto up 1490 own false item queued_db 1500 queued_db).1

delivery_taken :
    deliver_event codec crypto up 1490 own false item queued_db 1500 queued_db
    ≡ (ok (some true), taken_db)
unfolding deliver_event attempt settle_event get_peer mark_outbox_delivered find? post_event
    signed_json_request posted signed_headers sign_federation_request decimal digits_onto
    read_exchange remote_result
delivery_taken = refl

deliver_event-true_example :
    (peer : Peer) × (fs : Fields) × (get_peer "srv_b" queued_db ≡ some peer)
    × (peer.enabled ≡ true)
    × (post_event codec crypto up queued_db.server_id peer (message "evt_1") 1490 own ≡ answered fs)
    × (find? (λ (o : OutboxRow). str_eq o.event_id "evt_1") taken_db.outbox ≡ none)
    × (sent_state "evt_1" taken_db ≡ settled (sent_state "evt_1" queued_db))
deliver_event-true_example =
    deliver_event-true codec crypto up 1490 own false item queued_db 1500 queued_db taken_db
      delivery_taken

abbrev missed_db : Db
missed_db = (deliver_event codec crypto down 1490 own false item queued_db 1500 queued_db).1

delivery_missed :
    deliver_event codec crypto down 1490 own false item queued_db 1500 queued_db
    ≡ (ok (some false), missed_db)
unfolding deliver_event attempt settle_event get_peer mark_outbox_failed find? post_event
    signed_json_request posted signed_headers sign_federation_request decimal digits_onto
    read_exchange
delivery_missed = refl

deliver_event-false_example :
    ((false ≡ true) × (missed_db ≡ queued_db))
    ⊎ ((false ≡ false)
        × (due_entry "evt_1" 1600 missed_db
            ≡ some (ltb 3 max_outbox_attempts && leb (1500 + backoff 3) 1600))
        × (sent_state "evt_1" missed_db ≡ some State.queued))
deliver_event-false_example =
    deliver_event-false codec crypto down 1490 own false item queued_db 1500 1600 entry row
      queued_db missed_db delivery_missed entry_found row_found

delivery_broken :
    deliver_event failing crypto up 1490 own false item queued_db 1500 queued_db
    ≡ (ok none, queued_db)
unfolding deliver_event attempt settle_event get_peer find? post_event signed_json_request posted
    signed_headers sign_federation_request decimal digits_onto read_exchange remote_result
delivery_broken = refl

deliver_event-raised_example :
    (peer : Peer) × (false ≡ false)
    × (get_peer "srv_b" queued_db ≡ some peer)
    × (peer.enabled ≡ true)
    × (post_event failing crypto up queued_db.server_id peer (message "evt_1") 1490 own ≡ raised)
    × (queued_db ≡ queued_db)
deliver_event-raised_example =
    deliver_event-raised failing crypto up 1490 own false item queued_db 1500 queued_db queued_db
      delivery_broken
