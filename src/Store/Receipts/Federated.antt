-- ===== src/Store/Receipts/Federated.antt =====
-- What a receipt that a peer sends can change.
use native.Mathlib.Nat.{le_refl}
use mathlib.Core.Path.{subst}
use home_assistant_chat_comp.Prelude.{
  ℕ, ◌≤◌, String, ◌≡◌, refl, Bool, true, false, ◌&&◌, not, ◌⊎◌, inl, inr, eq_iff, eq_refl,
  Bool-cases, sym, some, arith, find?, any_row, str_eq, ltb, if◌then◌else◌,
}
use home_assistant_chat_comp.Schema.{Db, SentRow, RouteRow}
use home_assistant_chat_comp.Schema.Event.{Json, Receipt}
use home_assistant_chat_comp.Exec.{ok, err, event_not_found}
use home_assistant_chat_comp.Store.Receipts.{is_event, rank, state_of, accept_federated_receipt}
use home_assistant_chat_comp.Store.States.{sent_state, opt_rank, find?-update_event}

-- the event is routed to the peer
abbrev pub is_routed : String → String → Db → Bool
is_routed peer_id event_id db =
    any_row (λ (r : RouteRow). str_eq r.event_id event_id && str_eq r.peer_id peer_id) db.routes

module _ (json : Json) (peer_id : String) (receipt : Receipt) where
  -- A peer to which the event was not routed is told that there is no such event, and nothing
  -- changes.
  foreign_receipt_refused :
      (now : ℕ) (db : Db)
      → is_routed peer_id receipt.event_id db ≡ false
      → accept_federated_receipt json peer_id receipt now db ≡ (err event_not_found, db)
  unfolding accept_federated_receipt
  foreign_receipt_refused now db h = ground arith

  -- the update of the sent event
  abbrev raise_state : ℕ → SentRow → SentRow
  raise_state now s = record s { state = state_of receipt.state; updated_at = now }

  own_state :
      (now : ℕ) (db : Db)
      → opt_rank (sent_state receipt.event_id db)
        ≤ opt_rank
            (sent_state receipt.event_id (accept_federated_receipt json peer_id receipt now db).1)
  unfolding accept_federated_receipt
  own_state now db = ground (
    arith,
    find?-update_event receipt.event_id receipt.event_id (raise_state now) db.sent (λ s. refl),
    eq_refl receipt.event_id,
  )

  other_state :
      (other : String) (now : ℕ) (db : Db)
      → str_eq receipt.event_id other ≡ false
      → sent_state other (accept_federated_receipt json peer_id receipt now db).1
        ≡ sent_state other db
  unfolding accept_federated_receipt
  other_state other now db h =
      ground
        (arith, find?-update_event receipt.event_id other (raise_state now) db.sent (λ s. refl))

  -- No receipt, refused or not, lowers the rank of a sent event or changes the state of another
  -- event than its own.
  pub accept_federated_receipt_monotone :
      (other : String) (now : ℕ) (db : Db)
      → let db' = (accept_federated_receipt json peer_id receipt now db).1 in
        (opt_rank (sent_state other db) ≤ opt_rank (sent_state other db'))
        × ((other ≡ receipt.event_id) ⊎ (sent_state other db' ≡ sent_state other db))
  accept_federated_receipt_monotone other now db =
      elim (Bool-cases (str_eq receipt.event_id other)) [
        | inl same ↦
            let e : receipt.event_id ≡ other = (eq_iff receipt.event_id other).0 same in
            (
              subst
                  (λ o.
                    opt_rank (sent_state o db)
                    ≤ opt_rank
                        (sent_state o (accept_federated_receipt json peer_id receipt now db).1))
                  e (own_state now db),
              inl (sym e),
            )
        | inr differ ↦ (
          rw (other_state other now db differ) (le_refl _),
          inr (other_state other now db differ),
        )
      ]

  -- A receipt for the right recipient from the peer to which the event was routed is accepted; it
  -- raises the state of the event to the reported one, and is reported as a duplicate exactly if
  -- the state is not raised. The same receipt again is a duplicate and changes nothing.
  pub accept_federated_receipt_lem :
      (now later : ℕ) (s : SentRow) (db : Db)
      → is_routed peer_id receipt.event_id db ≡ true
      → find? (is_event receipt.event_id) db.sent ≡ some s
      → (json.loads s.event_json).recipient_number ≡ receipt.recipient_number
      → let (r, db') = accept_federated_receipt json peer_id receipt now db in
        let raised = ltb (rank s.state) (rank (state_of receipt.state)) in
        (r ≡ ok (not raised))
        × (sent_state receipt.event_id db'
            ≡ some (if raised then state_of receipt.state else s.state))
        × (accept_federated_receipt json peer_id receipt later db' ≡ (ok true, db'))
  unfolding accept_federated_receipt
  accept_federated_receipt_lem now later s db routed found number =
      elim (Bool-cases (ltb (rank s.state) (rank (state_of receipt.state)))) [
        | inl up ↦
            let laws =
              find?-update_event receipt.event_id receipt.event_id (raise_state now) db.sent
                (λ s. refl) in
            (
              ground arith,
              ground (arith, laws, eq_refl receipt.event_id),
              ground (arith, laws, eq_refl receipt.event_id),
            )
        | inr same ↦ (ground arith, ground arith, ground arith)
      ]
