-- ===== src/Api/History/Counters.antt =====
-- The counter of a device is taken once.
use home_assistant_chat_comp.Prelude.{
  ℕ, String, Bool, true, false, ◌&&◌, not, ◌<◌, ◌≡◌, refl, none, List, [], ◌∷◌, arith, any_row,
  find?, count_where, update_where, str_eq, eq_iff, Option-cases, inl, inr,
}
use home_assistant_chat_comp.Schema.{Db, DeviceRow, State}
use home_assistant_chat_comp.Schema.Event.{Json, Event}
use home_assistant_chat_comp.Exec.{ok}
use home_assistant_chat_comp.Store.Outgoing.{Outgoing, accepts_counter, create_outgoing_event}
use home_assistant_chat_comp.Store.Outgoing.Effects.{counted}
use home_assistant_chat_comp.Store.Outgoing.Retry.{create_outgoing_event_fresh, IsReplay}
use home_assistant_chat_comp.Store.Devices.{register_device, enroll, confirm}
use home_assistant_chat_comp.Store.Frame.{Step-IsQuiet}
use home_assistant_chat_comp.Store.Frame.Others.{
  add_key_packages-IsAside, claim_device_packages-IsAside, mark_receipt_outbox_delivered-IsAside,
  mark_receipt_outbox_failed-IsAside, account_for_token-IsLogin, create_session-IsLogin,
  revoke_session-IsLogin, record_federation_nonce-devices,
}
use home_assistant_chat_comp.Api.Http.{Library}
use home_assistant_chat_comp.Api.Calls.{
  Call, event_call, looked_up, logged_in, logged_out, registered, uploaded, claimed, receipt_sent,
  receipt_put_off, recorded, Runs, here, next,
}
use home_assistant_chat_comp.Api.History.{History, History-Runs}
use home_assistant_chat_comp.Api.History.Replay.{no_row}

-- a device with the id is registered
abbrev has_device : String → List DeviceRow → Bool
has_device id ds = any_row (λ (d : DeviceRow). str_eq d.id id) ds

-- No device takes the counter of the request, and its device is registered.
abbrev is_exhausted : Outgoing → List DeviceRow → Bool
is_exhausted again ds = has_device again.device_id ds && not (any_row (accepts_counter again) ds)

module _ (json : Json) (o again : Outgoing) where
  -- A counter that another request takes is above the one before.
  counted-has_device :
      (id : String) (ds : List DeviceRow) → has_device id (counted json o ds) ≡ has_device id ds
  unfolding any_row update_where
  counted-has_device id [] = refl
  counted-has_device id (d ∷ ds) = ground (arith, counted-has_device id ds)

  counted-refused :
      (ds : List DeviceRow)
      → any_row (accepts_counter again) ds ≡ false
      → any_row (accepts_counter again) (counted json o ds) ≡ false
  unfolding any_row update_where
  counted-refused [] h = refl
  counted-refused (d ∷ ds) h = ground (arith, counted-refused ds)

  counted-is_exhausted :
      (ds : List DeviceRow)
      → is_exhausted again ds ≡ true
      → is_exhausted again (counted json o ds) ≡ true
  counted-is_exhausted ds h =
      ground (arith, counted-has_device again.device_id ds, counted-refused ds)

  -- The request itself leaves no device that takes the counter of its replay.
  counted-replay :
      (ds : List DeviceRow)
      → IsReplay json o again
      → any_row (accepts_counter again) (counted json o ds) ≡ false
  unfolding any_row update_where
  counted-replay [] r = refl
  counted-replay (d ∷ ds) r = ground (arith, counted-replay ds r)

  accepted-has_device :
      (ds : List DeviceRow)
      → 0 < count_where (accepts_counter o) ds
      → has_device o.device_id ds ≡ true
  unfolding any_row count_where
  accepted-has_device [] h = absurd (ground arith)
  accepted-has_device (d ∷ ds) h = ground (arith, accepted-has_device ds)

refused-count :
    (o : Outgoing) (ds : List DeviceRow)
    → any_row (accepts_counter o) ds ≡ false
    → count_where (accepts_counter o) ds ≡ 0
unfolding any_row count_where
refused-count o [] h = refl
refused-count o (d ∷ ds) h = ground (arith, refused-count o ds)

unfound :
    (id : String) (ds : List DeviceRow)
    → find? (λ (d : DeviceRow). str_eq d.id id) ds ≡ none
    → has_device id ds ≡ false
unfolding any_row find?
unfound id [] h = refl
unfound id (d ∷ ds) h = ground (arith, unfound id ds)

-- A registration opens no device under an id that is taken.
register_device-is_exhausted :
    (again : Outgoing) (account device key label : String) (now : ℕ) (db : Db)
    → is_exhausted again db.devices ≡ true
    → is_exhausted again (register_device account device key label now db).1.devices ≡ true
unfolding register_device enroll confirm any_row
register_device-is_exhausted again account device key label now db h =
    elim (Option-cases (find? (λ (d : DeviceRow). str_eq d.id device) db.devices)) [
      | inl fresh ↦ ground (arith, unfound device db.devices fresh, eq_iff device again.device_id)
      | inr (d, found) ↦ ground arith
    ]

module _ (lib : Library) (Seen : ℕ → Type 0) (Drawn : String → Type 0) (again : Outgoing) where
  abbrev IsExhausted : Db → Type 0
  IsExhausted db = is_exhausted again db.devices ≡ true

  Call-IsExhausted : {db db' : Db} → Call lib Seen Drawn db db' → IsExhausted db → IsExhausted db'
  Call-IsExhausted {db} (event_call step) h =
      (Step-IsQuiet (λ _. false) db.nonces (is_exhausted again) lib.json
        (λ o ds. counted-is_exhausted lib.json o again ds) step
        (record { nonces = refl; sessions = no_row db.sessions; devices = h })).devices
  Call-IsExhausted {db} (looked_up token now) h =
      let f = account_for_token-IsLogin lib.token_digest token now db in rw f.devices h
  Call-IsExhausted {db} (logged_in id lifetime token now d) h =
      let f = create_session-IsLogin lib.token_digest id lifetime token now db in rw f.devices h
  Call-IsExhausted {db} (logged_out token) h =
      let f = revoke_session-IsLogin lib.token_digest token db in rw f.devices h
  Call-IsExhausted {db} (registered account device key label now) h =
      register_device-is_exhausted again account device key label now db h
  Call-IsExhausted {db} (uploaded account device ps now) h =
      let f = add_key_packages-IsAside lib.json account device ps now db in rw f.devices h
  Call-IsExhausted {db} (claimed identity claimant now) h =
      let f = claim_device_packages-IsAside lib.json identity claimant now db in rw f.devices h
  Call-IsExhausted {db} (receipt_sent id) h =
      let f = mark_receipt_outbox_delivered-IsAside id db in rw f.devices h
  Call-IsExhausted {db} (receipt_put_off id attempts error now) h =
      let f = mark_receipt_outbox_failed-IsAside id attempts error now db in rw f.devices h
  Call-IsExhausted {db} (recorded p n t now seen) h =
      rw (record_federation_nonce-devices p n t now db) h

  Runs-IsExhausted : {db db' : Db} → Runs lib Seen Drawn db db' → IsExhausted db → IsExhausted db'
  Runs-IsExhausted here h = h
  Runs-IsExhausted (next r c) h = Call-IsExhausted c (Runs-IsExhausted r h)

module _ (lib : Library) (Seen : ℕ → Type 0) (Drawn : String → Type 0) where
  fresh-IsExhausted :
      (o again : Outgoing) (now : ℕ) (e : Event) (st : State) (db db' : Db)
      → create_outgoing_event lib.json o now db ≡ (ok (e, st, false), db')
      → IsReplay lib.json o again
      → is_exhausted again db'.devices ≡ true
  fresh-IsExhausted o again now e st db db' h r =
      let done = create_outgoing_event_fresh lib.json o now e st db db' h in
      ground (
        arith,
        counted-replay lib.json o again db.devices r,
        counted-has_device lib.json o again o.device_id db.devices,
        accepted-has_device lib.json o again db.devices,
      )

  -- After a new request of a device was stored, no request of that device with the same counter or a
  -- lower one is stored as a new one, whatever requests come to the two planes in between and whatever
  -- the dispatcher and other threads do: what it returns, if it returns, is marked as a duplicate.
  pub replay_never_fresh :
      (o again : Outgoing) (now later : ℕ) (e e' : Event) (st st' : State) (fresh : Bool)
      (db db' t t' : Db)
      → create_outgoing_event lib.json o now db ≡ (ok (e, st, false), db')
      → IsReplay lib.json o again
      → History lib Seen Drawn db' t
      → create_outgoing_event lib.json again later t ≡ (ok (e', st', fresh), t')
      → fresh ≡ true
  replay_never_fresh o again now later e e' st st' true db db' t t' h r between k = refl
  replay_never_fresh o again now later e e' st st' false db db' t t' h r between k =
      let exhausted =
        Runs-IsExhausted lib Seen Drawn again (History-Runs lib Seen Drawn between)
          (fresh-IsExhausted o again now e st db db' h r) in
      let new = create_outgoing_event_fresh lib.json again later e' st' t t' k in
      absurd (ground (arith, refused-count again t.devices))
