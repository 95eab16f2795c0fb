-- ===== src/Lib.antt =====
-- Home Assistant Chat Companion: the server that stores accounts, devices and messages of a household
-- and exchanges messages with the companions of other households.
--
-- The program's parts. A client talks to the client plane of the HTTP API, a peer (another companion)
-- to the federation plane; both call the store, an SQLite database behind a lock. A dispatcher reads
-- the two outboxes of the store, of messages and of receipts, and sends them to the peers. Each
-- method of the store runs under the lock, so a run of the server is a sequence of such calls, in any
-- order.
--
-- The package is home_assistant_chat_companion/src/hachat_companion/ of the repository; the files
-- named here stand in it.
--   Protocol          protocol.py: the limits and the names.
--   Schema            storage.py, `_migrate`: the tables, a record for each row and `Db` for all.
--   Schema/Event      events.py and storage.py: the JSON objects that are kept as text.
--   Exec              how a method runs: it reads and writes the database, returns or raises, and a
--                     transaction takes back what was written before an exception.
--   Store/Nonces      `record_federation_nonce`.
--   Store/Accounts    `create_account`, `authenticate`.
--   Store/Sessions    `create_session`, `account_for_token`, `revoke_session`.
--   Store/Peers       `get_peer`, `disable_all_peers`, `resolve_peer`, and in Store/Peers/Configure
--                     `add_peer`, `configure_peer`.
--   Store/Devices     `register_device`, `devices_for_identity`.
--   Store/KeyPackages `add_key_packages`, `claim_device_packages`.
--   Store/Cleanup     `_cleanup_expired_locked`, `_ensure_event_quota_locked`.
--   Store/Outgoing    `create_outgoing_event`.
--   Store/Incoming    `accept_federated_event`, `inbox`.
--   Store/Receipts    `mark_receipt`, `_queue_receipt_locked`, `accept_federated_receipt`,
--                     `delivery_status`.
--   Store/Outbox      `due_outbox`, `due_receipts` and the marks of the entries of both.
--   RateLimit         ratelimit.py: `RateLimiter.allow`.
--   Security          security.py: `sign_federation_request`, `verify_federation_signature`, and in
--                     Security/Passwords `hash_password`, `verify_password`.
--   Wire              the values of `json.loads`, the checks that raise `ValueError`, and the
--                     libraries json, base64 and uuid as a parameter (`Codec`).
--   Wire/Envelope     events.py: `_b64`, `validate_device_id`, `validate_envelope`.
--   Wire/DeviceKey    events.py: `validate_public_jwk`.
--   Wire/Json         the objects that are sent, as values.
--   Events            events.py: `validate_client_message`, `build_federated_event`,
--                     `validate_federated_event`, `validate_receipt`.
--   Address           address.py: `UserAddress`, `parse_user_address`, `parse_ipv4`.
--   Config            config.py: `ListenerConfig.validated`, `ServiceConfig.validated`.
--   Federation        federation.py: `_deliver_event`, `_deliver_receipt`, and in
--                     Federation/Request `signed_json_request`, `post_event`, `fetch_devices`.
--   Api               api.py: `_federation_peer`, with which the federation plane authenticates.
--   Api/Http          the requests, replies and outcomes of a handler, `_read_body`, `_parse_json`,
--                     `_json_object`, `_require_protocol`.
--   Api/Client        `_client_account` and `_dispatch_client`: the session here, the devices in
--                     Api/Client/Devices, messages and status in Api/Client/Messages.
--   Api/Peers         the handlers of `_dispatch_federation`.
--   Api/Dispatch      `_dispatch`, the choice of the handler on both planes, `handler_for`.
--   Api/Calls         the relation of the databases that calls of the store lead to, and that every
--                     handler stays within it.
--   Api/History       the histories of a server: requests and other calls in any order.
--   Health            health.py: `probe_health`.
--   Store/Frame       what the calls of the store leave alone.
--   Prelude, Text     shared helpers: lists, tables, sorting, texts.
--   Tests             runs on a small server, and an instance of each result with a condition.
--
-- Conventions. A table is the list of its rows, newest first; an `ORDER BY` is `order_by`. A
-- unique key or a reference that an INSERT can break is tested where the row is inserted. The
-- clock is an argument of each call, in whole seconds, and so are the random ids, numbers, salts
-- and tokens; a request has its readings of the clock by their order (`Draws`). The JSON codec,
-- SHA-256, HMAC, base64, UUIDs, `int` and the parser of IP addresses belong to the standard library
-- and are parameters (`Json`, `Codec`, `Crypto`, `Kdf`, `ip_address`), as are the file system and
-- what the network answers; a theorem that needs a law of one of them says so as a condition. Loops
-- are structural recursion; the decimal text of a number has fuel, one more than the number, and
-- Text/Parts/Decimal shows that it is enough. Numbers have no bound, as in Python.
--
-- A handler takes the state of its plane, the database and the two limiters, and returns an outcome
-- (a reply, an `ApiError`, another exception, a lost connection) with the state after it. A request
-- is handled whole on one state; the calls that other threads make between those of a request
-- stand beside it in a history. A text is a sequence of characters without surrogates, and the keys
-- of a JSON object are distinct.
--
-- Not modelled: the dispatcher's pass over the outboxes with its threads and waits; the TLS contexts,
-- the sockets, threads and signals of the server, the lines of an HTTP response; the opening of the
-- database file and the migration of older ones; the command line, its client and
-- the self test, which are calls of these libraries and of the parts above.
pub mod Prelude
pub mod Protocol
pub mod Schema
pub mod Exec
pub mod Text
pub mod Store
pub mod RateLimit
pub mod Security
pub mod Wire
pub mod Address
pub mod Config
pub mod Events
pub mod Api
pub mod Federation
pub mod Health
pub mod Tests
