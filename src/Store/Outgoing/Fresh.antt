-- ===== src/Store/Outgoing/Fresh.antt =====
-- What a new request leaves in the tables, for a recipient here and for one of a peer.
use home_assistant_chat_comp.Prelude.{
  ℕ, ◌≡◌, Bool, true, false, ◌&&◌, not, ◌==◌, ltb, none, some, ◌∷◌, ◌⊎◌, inl, inr, arith, str_eq,
  find?, count_where, update_where, String, Option-cases,
}
use home_assistant_chat_comp.Schema.{
  Db, State, AccountRow, DeviceRow, SentRow, InboxRow, OutboxRow, RouteRow,
}
use home_assistant_chat_comp.Schema.Event.{Json, Event}
use home_assistant_chat_comp.Exec.{ok}
use home_assistant_chat_comp.Store.Cleanup.{cleanup_expired, ensure_event_quota}
use home_assistant_chat_comp.Store.Outgoing.{
  Outgoing, advance_counter, insert_sent, insert_inbox, deliver_local, enqueue_remote, dispatch,
  persist, has_one_route, create_outgoing_event,
}
use home_assistant_chat_comp.Store.Outgoing.Effects.{stored}
use home_assistant_chat_comp.Store.Outgoing.Retry.{create_outgoing_event_fresh, fresh-persist}

-- the row of a recipient's inbox
abbrev local_row : Json → Event → String → ℕ → InboxRow
local_row json e account_id now = record {
  event_id = e.event_id;
  recipient_account_id = account_id;
  origin_server_id = e.origin_server_id;
  event_json = json.dumps e;
  accepted_at = now;
  delivered_at = none;
  read_at = none;
}

-- the entry of the outbox, which is due at once
abbrev queued_row : Json → Event → String → ℕ → OutboxRow
queued_row json e peer_id now = record {
  event_id = e.event_id;
  peer_id = peer_id;
  event_json = json.dumps e;
  attempts = 0;
  next_attempt_at = now;
  last_error = none;
}

abbrev route_row : Event → String → RouteRow
route_row e peer_id = record { event_id = e.event_id; peer_id = peer_id }

-- the row of the sent events
abbrev request_row : Json → Outgoing → State → ℕ → SentRow
request_row json o state now = record {
  event_id = o.event.event_id;
  account_id = o.account_id;
  client_event_id = o.client_event_id;
  target = o.target;
  event_json = json.dumps o.event;
  state = state;
  created_at = now;
  updated_at = now;
}

-- the device of the account, if it is not revoked and its counter is below that of the request
abbrev pub is_counted : Outgoing → DeviceRow → Bool
is_counted o d =
    str_eq d.id o.device_id
    && str_eq d.account_id o.account_id
    && not d.revoked
    && ltb d.last_counter o.counter

-- The event went to the recipient's inbox, and to no other server.
abbrev pub IsLocal : Json → Outgoing → ℕ → State → Db → Db → Type 0
IsLocal json o now st swept db' =
    (identity : ℕ) × (a : AccountRow) × (o.local_recipient ≡ some identity)
    × (o.peer_id ≡ none)
    × (find? (λ (a : AccountRow). a.identity == identity && a.enabled) swept.accounts ≡ some a)
    × (st ≡ State.accepted)
    × (db'.sent ≡ request_row json o State.accepted now ∷ swept.sent)
    × (db'.inbox ≡ local_row json o.event a.id now ∷ swept.inbox)
    × (db'.outbox ≡ swept.outbox)
    × (db'.routes ≡ swept.routes)

-- The event waits for the peer, and no inbox here got it.
abbrev pub IsRemote : Json → Outgoing → ℕ → State → Db → Db → Type 0
IsRemote json o now st swept db' =
    (peer_id : String) × (o.local_recipient ≡ none)
    × (o.peer_id ≡ some peer_id)
    × (st ≡ State.queued)
    × (db'.sent ≡ request_row json o State.queued now ∷ swept.sent)
    × (db'.inbox ≡ swept.inbox)
    × (db'.outbox ≡ queued_row json o.event peer_id now ∷ swept.outbox)
    × (db'.routes ≡ route_row o.event peer_id ∷ swept.routes)

module _ (json : Json) where
  deliver_local-rows :
      (e : Event) (identity now : ℕ) (db db' : Db)
      → deliver_local json e identity now db ≡ (ok tt, db')
      → (a : AccountRow) × (find?
            (λ (a : AccountRow). a.identity == identity && a.enabled)
            db.accounts
          ≡ some a)
        × (db'.inbox ≡ local_row json e a.id now ∷ db.inbox)
        × (db'.outbox ≡ db.outbox)
        × (db'.routes ≡ db.routes)
  unfolding deliver_local ensure_event_quota insert_inbox
  deliver_local-rows e identity now db db' h =
      elim (Option-cases
        (find? (λ (a : AccountRow). a.identity == identity && a.enabled) db.accounts)) [
          | inl nobody ↦ absurd (ground arith)
          | inr (a, found) ↦ (a, found, ground arith, ground arith, ground arith)
        ]

  enqueue_remote-rows :
      (e : Event) (peer_id : String) (now : ℕ) (db db' : Db)
      → enqueue_remote json e peer_id now db ≡ (ok tt, db')
      → (db'.inbox ≡ db.inbox)
        × (db'.outbox ≡ queued_row json e peer_id now ∷ db.outbox)
        × (db'.routes ≡ route_row e peer_id ∷ db.routes)
  unfolding enqueue_remote
  enqueue_remote-rows e peer_id now db db' h = ground arith

  -- The last step of a new request succeeded.
  persist-dispatch :
      (o : Outgoing) (now : ℕ) (db db' : Db) (r : Event × State × Bool)
      → persist json o now db ≡ (ok r, db')
      → dispatch json o now (stored json o now db) ≡ (ok tt, db')
  unfolding persist advance_counter insert_sent ensure_event_quota
  persist-dispatch o now db db' r h = ground arith

  one_route :
      (o : Outgoing) (now : ℕ) (e : Event) (st : State) (db db' : Db)
      → create_outgoing_event json o now db ≡ (ok (e, st, false), db')
      → has_one_route o ≡ true
  unfolding create_outgoing_event
  one_route o now e st db db' h = ground arith

  -- What a request that returns as a new one leaves: it returns the event that was asked for; the
  -- one device that is the account's, is not revoked and has a counter below that of the request has
  -- now that counter; and the rest depends on the recipient. For one who is here the event is
  -- accepted, in front of the sent events and in the inbox of the enabled account with the identity;
  -- for one of a peer it is queued in front of the sent events, with a route and an entry of the
  -- outbox that is due at once. The other rows are those that had not expired.
  pub create_outgoing_event_new :
      (o : Outgoing) (now : ℕ) (e : Event) (st : State) (db db' : Db)
      → create_outgoing_event json o now db ≡ (ok (e, st, false), db')
      → (e ≡ o.event)
        × (count_where (is_counted o) db.devices ≡ 1)
        × (db'.devices
            ≡ update_where (is_counted o) (λ d. record d { last_counter = o.counter }) db.devices)
        × (IsLocal json o now st (cleanup_expired json now db) db'
            ⊎ IsRemote json o now st (cleanup_expired json now db) db')
  unfolding dispatch
  create_outgoing_event_new o now e st db db' h =
      let swept = cleanup_expired json now db in
      let done = create_outgoing_event_fresh json o now e st db db' h in
      let sent =
        persist-dispatch o now swept db' (e, st, false) (fresh-persist json o now e st db db' h) in
      let route = one_route o now e st db db' h in
      (
        ground arith,
        ground arith,
        ground arith,
        elim (Option-cases o.local_recipient) [
          | inl away ↦ elim (Option-cases o.peer_id) [
            | inl nowhere ↦ absurd (ground arith)
            | inr (p, to) ↦
                let rows =
                  enqueue_remote-rows o.event p now (stored json o now swept) db' (ground arith) in
                inr (
                  p,
                  away,
                  to,
                  ground arith,
                  ground arith,
                  ground arith,
                  ground arith,
                  ground arith,
                )
          ]
          | inr (identity, here) ↦ elim (Option-cases o.peer_id) [
            | inr (p, to) ↦ absurd (ground arith)
            | inl nowhere ↦
                let rows =
                  deliver_local-rows o.event identity now (stored json o now swept) db'
                    (ground arith) in
                inl (
                  identity,
                  rows.0,
                  here,
                  nowhere,
                  ground arith,
                  ground arith,
                  ground arith,
                  ground arith,
                  ground arith,
                  ground arith,
                )
          ]
        ],
      )
