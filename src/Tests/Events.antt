-- ===== src/Tests/Events.antt =====
-- Messages that are sent, repeated and received.
use home_assistant_chat_comp.Prelude.{
  ◌≤◌, ◌≡◌, refl, none, some, true, false, List, arith, length, find?, any_row, count_where, select,
  delete_where, update_where, All, IsOrdered,
}
use home_assistant_chat_comp.Schema.{Db, State, InboxRow}
use home_assistant_chat_comp.Schema.Event.{comparable}
use home_assistant_chat_comp.Exec.{ok}
use home_assistant_chat_comp.Store.Cleanup.{
  total_size, cleanup_expired, ensure_event_quota, sent_texts, inbox_texts,
}
use home_assistant_chat_comp.Store.Outgoing.{
  Outgoing, advance_counter, insert_sent, enqueue_remote, dispatch, persist, resume,
  create_outgoing_event,
}
use home_assistant_chat_comp.Store.Outgoing.Retry.{retry_is_duplicate}
use home_assistant_chat_comp.Store.Outgoing.Fresh.{
  is_counted, IsLocal, IsRemote, create_outgoing_event_new,
}
use home_assistant_chat_comp.Prelude.{◌⊎◌}
use home_assistant_chat_comp.Store.Incoming.{accept_federated_event, is_waiting, inbox, inbox_rows}
use home_assistant_chat_comp.Store.Incoming.Accepted.{has_id, accepted_is_stored}
use home_assistant_chat_comp.Store.Incoming.Page.{
  Waits, Older, inbox_rows_page, inbox_rows_complete,
}
use home_assistant_chat_comp.Store.Quota.{
  WithinQuota, here, next, received, listed, Reach-WithinQuota,
}
use home_assistant_chat_comp.Tests.Data.{db, json, message, request}

-- the request to the peer, and the database after it
abbrev pub to_peer : Outgoing
to_peer = request "evt_1" none (some "srv_b")

abbrev pub sent : Db
sent = (create_outgoing_event json to_peer 1000 db).1

pub to_peer_queued :
    create_outgoing_event json to_peer 1000 db ≡ (ok (message "evt_1", State.queued, false), sent)
unfolding create_outgoing_event resume persist advance_counter insert_sent dispatch enqueue_remote
    ensure_event_quota cleanup_expired find? any_row count_where select delete_where update_where
to_peer_queued = refl

-- the same request again, with a new event id
abbrev pub again : Outgoing
again = request "evt_2" none (some "srv_b")

retry_is_duplicate_example :
    create_outgoing_event json again 1500 sent
    ≡ (ok (message "evt_1", State.queued, true), cleanup_expired json 1500 sent)
unfolding comparable
retry_is_duplicate_example =
    retry_is_duplicate json to_peer again 1000 1500 (message "evt_1") State.queued db sent
      to_peer_queued refl (omega arith) refl refl refl refl refl

create_outgoing_event_new_example :
    (message "evt_1" ≡ message "evt_1")
    × (count_where (is_counted to_peer) db.devices ≡ 1)
    × (sent.devices
        ≡ update_where (is_counted to_peer) (λ d. record d { last_counter = 5 }) db.devices)
    × (IsLocal json to_peer 1000 State.queued (cleanup_expired json 1000 db) sent
        ⊎ IsRemote json to_peer 1000 State.queued (cleanup_expired json 1000 db) sent)
create_outgoing_event_new_example =
    create_outgoing_event_new json to_peer 1000 (message "evt_1") State.queued db sent
      to_peer_queued

-- an event of the peer for Bob
abbrev received_db : Db
received_db = (accept_federated_event json "srv_b" (message "evt_9") 1000 db).1

accepted_first :
    accept_federated_event json "srv_b" (message "evt_9") 1000 db ≡ (ok false, received_db)
unfolding accept_federated_event ensure_event_quota cleanup_expired find? any_row count_where select
    delete_where update_where
accepted_first = refl

accepted_is_stored_example :
    (i : InboxRow) × (find? (has_id "evt_9") received_db.inbox ≡ some i)
    × (i.origin_server_id ≡ "srv_b")
    × (i.event_json ≡ "event evt_9")
accepted_is_stored_example =
    accepted_is_stored json "srv_b" (message "evt_9") 1000 false db received_db accepted_first

-- Bob's page of the inbox
abbrev page : List InboxRow
page = inbox_rows json "bob" 10 1500 received_db

inbox_rows_page_example :
    (length page ≤ 10) × All (Waits json "bob" 1500) page × IsOrdered Older page
inbox_rows_page_example = inbox_rows_page json "bob" 10 1500 received_db

one_waits : count_where (is_waiting json "bob" 1500) received_db.inbox ≤ 10
unfolding accept_federated_event ensure_event_quota cleanup_expired find? any_row count_where select
    delete_where update_where
one_waits = omega arith

inbox_rows_complete_example :
    count_where (has_id "evt_9") page
    ≡ count_where (has_id "evt_9") (select (is_waiting json "bob" 1500) received_db.inbox)
inbox_rows_complete_example =
    inbox_rows_complete json "bob" 10 1500 received_db (has_id "evt_9") one_waits

pub db-WithinQuota : WithinQuota "bob" db
unfolding sent_texts inbox_texts total_size
db-WithinQuota = record {
  sent = record { count_fits = omega arith; bytes_fit = omega arith };
  inbox = record { count_fits = omega arith; bytes_fit = omega arith };
}

Reach-WithinQuota_example : WithinQuota "bob" (inbox json "bob" 10 1500 received_db).1
Reach-WithinQuota_example =
    Reach-WithinQuota {json = json} {db = db} {db' = (inbox json "bob" 10 1500 received_db).1} "bob"
      (next (next here (received "srv_b" (message "evt_9") 1000)) (listed "bob" 10 1500))
      db-WithinQuota
