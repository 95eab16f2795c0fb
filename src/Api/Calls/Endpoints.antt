-- ===== src/Api/Calls/Endpoints.antt =====
-- The handlers of both planes use the store through its calls alone.
use home_assistant_chat_comp.Prelude.{
  ℕ, String, Option, none, some, List, ◌≡◌, refl, arith, Option-cases, inl, inr, find?,
}
use home_assistant_chat_comp.Schema.{Db}
use home_assistant_chat_comp.Exec.{Result, ok, err}
use home_assistant_chat_comp.Exec.Messages.{message_of}
use home_assistant_chat_comp.Address.{IpAddress, UserAddress, parse_ipv4}
use home_assistant_chat_comp.Security.{Crypto}
use home_assistant_chat_comp.Security.Passwords.{Kdf}
use home_assistant_chat_comp.Store.Accounts.{has_identity, digits_value, authenticate}
use home_assistant_chat_comp.Store.Sessions.{Account}
use home_assistant_chat_comp.Store.Peers.{Peer, resolve_peer}
use home_assistant_chat_comp.Store.Receipts.{delivery_status}
use home_assistant_chat_comp.Store.Quota.{created, received, listed, marked, reported}
use home_assistant_chat_comp.Federation.Request.{Fetched, fetched, fetch_error, fetch_raised}
use home_assistant_chat_comp.Events.{ClientMessage}
use home_assistant_chat_comp.Schema.Event.{Event, Receipted}
use home_assistant_chat_comp.Wire.{Checked, valid, value_error, other_error, Octets}
use home_assistant_chat_comp.Api.Http.{Library, HttpRequest, Draws, finish, fail, crash, reply}
use home_assistant_chat_comp.Api.Client.{client_account, log_in, post_session, delete_session}
use home_assistant_chat_comp.Api.Client.Devices.{
  packages_checked, packages_failed, packages_caught, fetched_value, post_device, local_devices,
  ask_peer, remote_devices, find_devices, post_lookup, post_packages,
}
use home_assistant_chat_comp.Api.Client.Messages as Messages
use home_assistant_chat_comp.Api.Client.Messages.{
  remote_route, route_of, store_message, event_of, post_message, show_events, get_messages,
  post_status, get_status, get_account,
}
use home_assistant_chat_comp.Api.Peers
use home_assistant_chat_comp.Api.Calls.{
  event_call, looked_up, logged_in, logged_out, registered, uploaded, claimed, here, Keeps,
}
use home_assistant_chat_comp.Api.Calls.Rules.{parts}

authenticate-db :
    (crypto : Crypto) (kdf : Kdf) (identity password : String) (db : Db)
    → (authenticate crypto kdf identity password db).1 ≡ db
unfolding authenticate
authenticate-db crypto kdf identity password db =
    elim (Option-cases (find? (has_identity (digits_value 0 identity)) db.accounts)) [
      | inl gone ↦ ground arith
      | inr (row, found) ↦ ground arith
    ]

resolve_peer-db :
    (ip_address : String → Option IpAddress) (server : String) (port : Option ℕ) (db : Db)
    → (resolve_peer ip_address server port db).1 ≡ db
unfolding resolve_peer
resolve_peer-db ip_address server port db = elim (Option-cases (parse_ipv4 ip_address server)) [
  | inl gone ↦ ground arith
  | inr (host, found) ↦ ground arith
]

delivery_status-db : (account event : String) (db : Db) → (delivery_status account event db).1 ≡ db
unfolding delivery_status
delivery_status-db account event db = refl

ruleset reads = (authenticate-db, resolve_peer-db, delivery_status-db)

ruleset writes = (
  event_call, created, received, listed, marked, reported, looked_up, logged_in, logged_out,
  registered, uploaded, claimed,
)

module _ (lib : Library) (Seen : ℕ → Type 0) (Drawn : String → Type 0) where
  module _ {A : Type 0} where
    packages_checked-Keeps : (c : Checked A) → Keeps lib Seen Drawn (packages_checked c)
    unfolding packages_checked finish fail crash
    packages_checked-Keeps (valid a) = record { run = λ s. here }
    packages_checked-Keeps (value_error e) = record { run = λ s. here }
    packages_checked-Keeps other_error = record { run = λ s. here }

    packages_failed-Keeps : (e : Option String) → Keeps lib Seen Drawn (packages_failed {A = A} e)
    unfolding packages_failed fail crash
    packages_failed-Keeps none = record { run = λ s. here }
    packages_failed-Keeps (some e) = record { run = λ s. here }

    packages_caught-Keeps : (r : Result A) → Keeps lib Seen Drawn (packages_caught r)
    unfolding packages_caught finish
    packages_caught-Keeps (ok a) = record { run = λ s. here }
    packages_caught-Keeps (err e) = packages_failed-Keeps (message_of e)

  fetched_value-Keeps : (f : Fetched) → Keeps lib Seen Drawn (fetched_value f)
  unfolding fetched_value finish fail crash
  fetched_value-Keeps (fetched devices) = record { run = λ s. here }
  fetched_value-Keeps (fetch_error e) = record { run = λ s. here }
  fetched_value-Keeps fetch_raised = record { run = λ s. here }

  marked-Keeps : (c : Checked Receipted) → Keeps lib Seen Drawn (Messages.marked c)
  unfolding Messages.marked finish fail crash
  marked-Keeps (valid a) = record { run = λ s. here }
  marked-Keeps (value_error e) = record { run = λ s. here }
  marked-Keeps other_error = record { run = λ s. here }

  module _ (draws : Draws) where
    pub client_account-Keeps :
        (req : HttpRequest) → Keeps lib Seen Drawn (client_account lib req draws)
    unfolding client_account
    client_account-Keeps req = search (parts, writes) depth 12

    log_in-Keeps :
        (req : HttpRequest) (body : Octets)
        → Drawn draws.token
        → Keeps lib Seen Drawn (log_in lib req draws body)
    unfolding log_in
    log_in-Keeps req body d = search (parts, writes, reads) depth 20

    pub post_session-Keeps :
        (req : HttpRequest) (body : Octets)
        → Drawn draws.token
        → Keeps lib Seen Drawn (post_session lib req draws body)
    unfolding post_session
    post_session-Keeps req body d = search (parts, log_in-Keeps) depth 12

    pub delete_session-Keeps :
        (token : String) → Keeps lib Seen Drawn (delete_session lib draws token)
    unfolding delete_session
    delete_session-Keeps token = search (parts, writes) depth 12

    pub post_device-Keeps :
        (account : Account) (body : Octets)
        → Keeps lib Seen Drawn (post_device lib draws account body)
    unfolding post_device
    post_device-Keeps account body = search (parts, writes) depth 25

    local_devices-Keeps :
        (account : Account) (n : ℕ) → Keeps lib Seen Drawn (local_devices lib draws account n)
    unfolding local_devices
    local_devices-Keeps account n = search (parts, writes) depth 12

    ask_peer-Keeps :
        (account : Account) (n : ℕ) (peer : Peer)
        → Keeps lib Seen Drawn (ask_peer lib draws account n peer)
    unfolding ask_peer
    ask_peer-Keeps account n peer = record { run = λ s. (fetched_value-Keeps _).run s }

    remote_devices-Keeps :
        (account : Account) (n : ℕ) (port : Option ℕ) (server : String)
        → Keeps lib Seen Drawn (remote_devices lib draws account n port server)
    unfolding remote_devices
    remote_devices-Keeps account n port server = search (parts, reads, ask_peer-Keeps) depth 15

    find_devices-Keeps :
        (account : Account) (address : UserAddress) (server : Option String)
        → Keeps lib Seen Drawn (find_devices lib draws account address server)
    unfolding find_devices
    find_devices-Keeps account address none = local_devices-Keeps account address.number
    find_devices-Keeps account address (some server) =
        remote_devices-Keeps account address.number address.port server

    pub post_lookup-Keeps :
        (account : Account) (body : Octets)
        → Keeps lib Seen Drawn (post_lookup lib draws account body)
    unfolding post_lookup
    post_lookup-Keeps account body = search (parts, find_devices-Keeps) depth 12

    pub post_packages-Keeps :
        (account : Account) (body : Octets)
        → Keeps lib Seen Drawn (post_packages lib draws account body)
    unfolding post_packages
    post_packages-Keeps account body =
        search (parts, writes, packages_checked-Keeps, packages_caught-Keeps) depth 25

    remote_route-Keeps :
        (port : Option ℕ) (server : String)
        → Keeps lib Seen Drawn (remote_route lib draws port server)
    unfolding remote_route
    remote_route-Keeps port server = search (parts, reads) depth 15

    route_of-Keeps :
        (recipient : UserAddress) (server : Option String)
        → Keeps lib Seen Drawn (route_of lib draws recipient server)
    unfolding route_of
    route_of-Keeps recipient none = search parts
    route_of-Keeps recipient (some server) = remote_route-Keeps recipient.port server

    event_of-Keeps :
        (account : Account) (message : ClientMessage)
        → Keeps lib Seen Drawn (event_of lib draws account message)
    unfolding event_of finish
    event_of-Keeps account message = record { run = λ s. here }

    store_message-Keeps :
        (account : Account) (message : ClientMessage) (event : Event)
        → Keeps lib Seen Drawn (store_message lib draws account message event)
    unfolding store_message
    store_message-Keeps account message event = search (parts, writes, route_of-Keeps) depth 15

    pub post_message-Keeps :
        (account : Account) (body : Octets)
        → Keeps lib Seen Drawn (post_message lib draws account body)
    unfolding post_message
    post_message-Keeps account body = search (parts, event_of-Keeps, store_message-Keeps) depth 15

    show_events-Keeps : (events : List Event) → Keeps lib Seen Drawn (show_events lib draws events)
    unfolding show_events reply finish
    show_events-Keeps events = record { run = λ s. here }

    pub get_messages-Keeps :
        (account : Account) → Keeps lib Seen Drawn (get_messages lib draws account)
    unfolding get_messages
    get_messages-Keeps account = search (parts, writes, show_events-Keeps) depth 12

    pub post_receipt-Keeps :
        (account : Account) (body : Octets)
        → Keeps lib Seen Drawn (Messages.post_receipt lib draws account body)
    unfolding Messages.post_receipt
    post_receipt-Keeps account body = search (parts, writes, marked-Keeps) depth 25

    pub post_status-Keeps :
        (account : Account) (body : Octets)
        → Keeps lib Seen Drawn (post_status lib draws account body)
    unfolding post_status
    post_status-Keeps account body = search (parts, reads) depth 15

    pub get_status-Keeps : (account : Account) → Keeps lib Seen Drawn (get_status lib draws account)
    unfolding get_status reply finish
    get_status-Keeps account = record { run = λ s. here }

    pub get_account-Keeps :
        (account : Account) → Keeps lib Seen Drawn (get_account lib draws account)
    unfolding get_account
    get_account-Keeps account = search parts

    pub peer_event-Keeps :
        (peer_id : String) (body : Octets)
        → Keeps lib Seen Drawn (Peers.post_event lib draws peer_id body)
    unfolding Peers.post_event
    peer_event-Keeps peer_id body = search (parts, writes) depth 15

    pub peer_devices-Keeps :
        (peer_id : String) (body : Octets)
        → Keeps lib Seen Drawn (Peers.post_devices lib draws peer_id body)
    unfolding Peers.post_devices
    peer_devices-Keeps peer_id body = search (parts, writes) depth 25

    pub peer_receipt-Keeps :
        (peer_id : String) (body : Octets)
        → Keeps lib Seen Drawn (Peers.post_receipt lib draws peer_id body)
    unfolding Peers.post_receipt
    peer_receipt-Keeps peer_id body = search (parts, writes) depth 15

    pub peer_status-Keeps :
        (peer_id : String) → Keeps lib Seen Drawn (Peers.get_status lib draws peer_id)
    unfolding Peers.get_status reply finish
    peer_status-Keeps peer_id = record { run = λ s. here }
