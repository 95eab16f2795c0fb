-- ===== src/Store/Outgoing/Effects.antt =====
-- What the parts of `create_outgoing_event` leave alone, and what a new request has changed.
use home_assistant_chat_comp.Prelude.{
  ℕ, String, ◌≡◌, Bool, false, List, ◌∷◌, arith, count_where, update_where, Option-cases, inl, inr,
}
use home_assistant_chat_comp.Schema.{Db, State, DeviceRow}
use home_assistant_chat_comp.Schema.Event.{Json, Event}
use home_assistant_chat_comp.Exec.{ok}
use home_assistant_chat_comp.Store.Cleanup.{QuotaTable, ensure_event_quota}
use home_assistant_chat_comp.Store.Outgoing.{
  Outgoing, accepts_counter, advance_counter, insert_sent, deliver_local, enqueue_remote, dispatch,
  first_state, sent_row, persist,
}

-- The test of the quota writes nothing.
pub ensure_event_quota-db :
    (table : QuotaTable) (a : String) (n : ℕ) (db : Db) → (ensure_event_quota table a n db).1 ≡ db
unfolding ensure_event_quota
ensure_event_quota-db table a n db = ground arith

module _ (json : Json) where
  -- The delivery touches neither the sent events nor the devices.
  pub deliver_local-tables :
      (e : Event) (n now : ℕ) (db : Db)
      → ((deliver_local json e n now db).1.sent ≡ db.sent)
        × ((deliver_local json e n now db).1.devices ≡ db.devices)
  unfolding deliver_local ensure_event_quota
  deliver_local-tables e n now db = ground arith

  pub enqueue_remote-tables :
      (e : Event) (p : String) (now : ℕ) (db : Db)
      → ((enqueue_remote json e p now db).1.sent ≡ db.sent)
        × ((enqueue_remote json e p now db).1.devices ≡ db.devices)
  unfolding enqueue_remote
  enqueue_remote-tables e p now db = ground arith

  pub dispatch-tables :
      (o : Outgoing) (now : ℕ) (db : Db)
      → ((dispatch json o now db).1.sent ≡ db.sent)
        × ((dispatch json o now db).1.devices ≡ db.devices)
  unfolding dispatch
  dispatch-tables o now db = elim (Option-cases o.local_recipient) [
    | inl remote ↦ elim (Option-cases o.peer_id) [
      | inl nowhere ↦ ground arith
      | inr (p, e) ↦ ground (arith, enqueue_remote-tables o.event p now db)
    ]
    | inr (n, e) ↦ ground (arith, deliver_local-tables o.event n now db)
  ]

  -- the devices after the counter of the request was taken
  abbrev pub counted : Outgoing → List DeviceRow → List DeviceRow
  counted o = update_where (accepts_counter o) (λ d. record d { last_counter = o.counter })

  -- the database when a new request is dispatched
  abbrev pub stored : Outgoing → ℕ → Db → Db
  stored o now db = record db {
    devices = counted o db.devices;
    sent = sent_row json o now ∷ db.sent;
  }

  -- What a new request that was persisted has changed.
  pub persist-effects :
      (o : Outgoing) (now : ℕ) (db db' : Db) (r : Event × State × Bool)
      → persist json o now db ≡ (ok r, db')
      → (r ≡ (o.event, first_state o, false))
        × (db'.sent ≡ sent_row json o now ∷ db.sent)
        × (db'.devices ≡ counted o db.devices)
        × (count_where (accepts_counter o) db.devices ≡ 1)
  unfolding persist advance_counter insert_sent ensure_event_quota
  persist-effects o now db db' r h = ground (arith, dispatch-tables o now (stored o now db))
