-- ===== src/Store/Outgoing/Retry.antt =====
-- The retry of a message, and what a replay is.
use home_assistant_chat_comp.Prelude.{
  ℕ, ◌≤◌, ◌<◌, ◌≡◌, refl, true, false, some, List, ◌∷◌, arith, find?, count_where, delete_where,
  eq_iff,
}
use home_assistant_chat_comp.Schema.{Db, State, SentRow}
use home_assistant_chat_comp.Schema.Event.{Json, Event, comparable}
use home_assistant_chat_comp.Exec.{ok}
use home_assistant_chat_comp.Store.Cleanup.{cleanup_expired}
use home_assistant_chat_comp.Store.Outgoing.{
  Outgoing, is_request, accepts_counter, first_state, sent_row, persist, resume,
  create_outgoing_event, has_one_route,
}
use home_assistant_chat_comp.Store.Outgoing.Effects.{persist-effects, counted}

module _ (json : Json) where
  -- A request that is not a duplicate was persisted on the database without what had expired.
  pub fresh-persist :
      (o : Outgoing) (now : ℕ) (e : Event) (st : State) (db db' : Db)
      → create_outgoing_event json o now db ≡ (ok (e, st, false), db')
      → persist json o now (cleanup_expired json now db) ≡ (ok (e, st, false), db')
  unfolding create_outgoing_event resume
  fresh-persist o now e st db db' h = ground arith

  cleanup_expired-devices : (now : ℕ) (db : Db) → (cleanup_expired json now db).devices ≡ db.devices
  unfolding cleanup_expired
  cleanup_expired-devices now db = refl

  -- What a request that returns as a new one has stored: the event that was asked for, as
  -- accepted or queued, in front of the sent events that had not expired; and the counter of the
  -- one device that the request names, which was below the counter of the request, is now that
  -- counter.
  pub create_outgoing_event_fresh :
      (o : Outgoing) (now : ℕ) (e : Event) (st : State) (db db' : Db)
      → create_outgoing_event json o now db ≡ (ok (e, st, false), db')
      → (e ≡ o.event)
        × (st ≡ first_state o)
        × (db'.sent ≡ sent_row json o now ∷ (cleanup_expired json now db).sent)
        × (count_where (accepts_counter o) db.devices ≡ 1)
        × (db'.devices ≡ counted json o db.devices)
  create_outgoing_event_fresh o now e st db db' h =
      let done =
        persist-effects json o now (cleanup_expired json now db) db' (e, st, false)
          (fresh-persist o now e st db db' h) in
      ground (arith, cleanup_expired-devices now db)

  -- the counter of a later request is not above that of an earlier one of the same device
  abbrev pub IsReplay : Outgoing → Outgoing → Type 0
  IsReplay o again =
      (again.account_id ≡ o.account_id)
      × (again.device_id ≡ o.device_id)
      × (again.counter ≤ o.counter)

  -- A stored request that has not expired is found again after the cleanup.
  kept_request :
      (o again : Outgoing) (now later : ℕ) (tail : List SentRow) (db : Db)
      → db.sent ≡ sent_row json o now ∷ tail
      → later < json.extract_expires_at (json.dumps o.event)
      → again.account_id ≡ o.account_id
      → again.client_event_id ≡ o.client_event_id
      → find? (is_request again) (cleanup_expired json later db).sent ≡ some (sent_row json o now)
  unfolding cleanup_expired find? delete_where
  kept_request o again now later tail db e alive a c = rw e (
      ground (
        arith,
        eq_iff o.account_id again.account_id,
        eq_iff o.client_event_id again.client_event_id,
      ))

  resumed :
      (o again : Outgoing) (now later : ℕ) (db : Db)
      → find? (is_request again) (cleanup_expired json later db).sent ≡ some (sent_row json o now)
      → json.loads (json.dumps o.event) ≡ o.event
      → has_one_route again ≡ true
      → again.target ≡ o.target
      → comparable o.event again.event ≡ true
      → create_outgoing_event json again later db
        ≡ (ok (o.event, first_state o, true), cleanup_expired json later db)
  unfolding create_outgoing_event resume
  resumed o again now later db found codec route t same =
      ground (arith, eq_iff o.target again.target)

  -- The retry of a stored request that has not expired, of the same account with the same client
  -- id, the same target, the same comparable fields and one route, returns the stored event as a
  -- duplicate with the state it was given, and sends nothing: beside the removal of what has
  -- expired the database stays as it is. The codec has to give the stored event back.
  pub retry_is_duplicate :
      (o again : Outgoing) (now later : ℕ) (e : Event) (st : State) (db db' : Db)
      → create_outgoing_event json o now db ≡ (ok (e, st, false), db')
      → json.loads (json.dumps o.event) ≡ o.event
      → later < json.extract_expires_at (json.dumps o.event)
      → has_one_route again ≡ true
      → again.account_id ≡ o.account_id
      → again.client_event_id ≡ o.client_event_id
      → again.target ≡ o.target
      → comparable o.event again.event ≡ true
      → create_outgoing_event json again later db'
        ≡ (ok (o.event, first_state o, true), cleanup_expired json later db')
  retry_is_duplicate o again now later e st db db' h codec alive route a c t same =
      let done = create_outgoing_event_fresh o now e st db db' h in
      resumed o again now later db'
        (kept_request o again now later (cleanup_expired json now db).sent db' done.2 alive a c)
        codec route t same
