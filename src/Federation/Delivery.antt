-- ===== src/Federation/Delivery.antt =====
-- What a delivery of the dispatcher leaves.
use home_assistant_chat_comp.Prelude.{
  ℕ, suc, ◌+◌, ◌⊎◌, String, ◌≡◌, ◌≢◌, refl, Bool, true, false, ◌&&◌, none, some, arith, ltb, leb,
  str_eq, find?, Option-cases, inl, inr, if◌then◌else◌,
}
use home_assistant_chat_comp.Protocol.{max_outbox_attempts}
use home_assistant_chat_comp.Schema.{Db, State, SentRow, OutboxRow}
use home_assistant_chat_comp.Schema.Event.{Event}
use home_assistant_chat_comp.Exec.{ok}
use home_assistant_chat_comp.Store.Peers.{Peer, get_peer}
use home_assistant_chat_comp.Store.Receipts.{is_event}
use home_assistant_chat_comp.Store.States.{sent_state}
use home_assistant_chat_comp.Store.Outbox.{Work, backoff}
use home_assistant_chat_comp.Store.Outbox.Marks.{
  settled, due_entry, mark_outbox_delivered_lem, mark_outbox_failed_lem,
}
use home_assistant_chat_comp.Security.{Crypto}
use home_assistant_chat_comp.Wire.{Codec, Fields}
use home_assistant_chat_comp.Federation.Request.{
  Network, Answer, answered, delivery_error, raised, post_event,
}
use home_assistant_chat_comp.Federation.{
  Outcome, stopped, delivered, broken, failed, answer, attempt, settle_event, deliver_event,
}

Outcome-cases :
    (o : Outcome)
    → (o ≡ stopped) ⊎ ((o ≡ delivered) ⊎ ((o ≡ broken) ⊎ ((e : String) × (o ≡ failed e))))
Outcome-cases stopped = inl refl
Outcome-cases delivered = inr (inl refl)
Outcome-cases broken = inr (inr (inl refl))
Outcome-cases (failed e) = inr (inr (inr (e, refl)))

Answer-cases :
    (a : Answer)
    → ((fs : Fields) × (a ≡ answered fs)) ⊎ (((e : String) × (a ≡ delivery_error e)) ⊎ (a ≡ raised))
Answer-cases (answered fs) = inl (fs, refl)
Answer-cases (delivery_error e) = inr (inl (e, refl))
Answer-cases raised = inr (inr refl)

module _ (post : Peer → Event → Answer) where
  -- An item that was posted to a peer, which was enabled, while the dispatcher ran: it was taken, or
  -- another exception came out.
  attempt-posted :
      (stop : Bool) (item : Work Event) (asked : Db) (o : Outcome)
      → attempt post stop item asked ≡ o
      → (o ≡ delivered) ⊎ (o ≡ broken)
      → (peer : Peer) × (get_peer item.peer_id asked ≡ some peer)
        × (peer.enabled ≡ true)
        × (answer (post peer item.body) ≡ o)
  unfolding attempt
  attempt-posted true item asked o h k = absurd (ground arith)
  attempt-posted false item asked o h k = elim (Option-cases (get_peer item.peer_id asked)) [
    | inl gone ↦ absurd (ground arith)
    | inr (peer, found) ↦ (peer, found, ground arith, ground arith)
  ]

  attempt-running : (item : Work Event) (asked : Db) → attempt post false item asked ≢ stopped
  unfolding attempt
  attempt-running item asked h = elim (Option-cases (get_peer item.peer_id asked)) [
    | inl gone ↦ ground arith
    | inr (peer, found) ↦ elim (Answer-cases (post peer item.body)) [
      | inl (fs, taken) ↦ ground arith
      | inr (inl (e, error)) ↦ ground arith
      | inr (inr other) ↦ ground arith
    ]
  ]

  attempt-broken :
      (stop : Bool) (item : Work Event) (asked : Db)
      → attempt post stop item asked ≡ broken
      → stop ≡ false
  unfolding attempt
  attempt-broken true item asked h = absurd (ground arith)
  attempt-broken false item asked h = refl

  attempt-stopped : (item : Work Event) (asked : Db) → attempt post true item asked ≡ stopped
  unfolding attempt
  attempt-stopped item asked = refl

answer-delivered : (a : Answer) → answer a ≡ delivered → (fs : Fields) × (a ≡ answered fs)
answer-delivered (answered fs) h = (fs, refl)
answer-delivered (delivery_error e) h = absurd (ground arith)
answer-delivered raised h = absurd (ground arith)

answer-broken : (a : Answer) → answer a ≡ broken → a ≡ raised
answer-broken (answered fs) h = absurd (ground arith)
answer-broken (delivery_error e) h = absurd (ground arith)
answer-broken raised h = refl

module _ (codec : Codec) (crypto : Crypto) (network : Network) (sent_at : ℕ) (nonce : String) where
  -- A delivery that reports success has posted the message to its peer, which was enabled, and the peer
  -- answered; it leaves no entry of the event in the outbox, and the event accepted if it was queued or
  -- failed and else in its state.
  pub deliver_event-true :
      (stop : Bool) (item : Work Event) (asked : Db) (now : ℕ) (db db' : Db)
      → deliver_event codec crypto network sent_at nonce stop item asked now db
        ≡ (ok (some true), db')
      → (peer : Peer) × (fs : Fields) × (get_peer item.peer_id asked ≡ some peer)
        × (peer.enabled ≡ true)
        × (post_event codec crypto network asked.server_id peer item.body sent_at nonce
            ≡ answered fs)
        × (find? (λ (o : OutboxRow). str_eq o.event_id item.id) db'.outbox ≡ none)
        × (sent_state item.id db' ≡ settled (sent_state item.id db))
  unfolding deliver_event settle_event
  deliver_event-true stop item asked now db db' h =
      let post = λ (p : Peer) (e : Event).
        post_event codec crypto network asked.server_id p e sent_at nonce in
      elim (Outcome-cases (attempt post stop item asked)) [
        | inl e ↦ absurd (ground arith)
        | inr (inr (inl e)) ↦ absurd (ground arith)
        | inr (inr (inr (error, e))) ↦ absurd (ground arith)
        | inr (inl e) ↦
            let (peer, found, enabled, took) =
              attempt-posted post stop item asked delivered e (inl refl) in
            let (fs, taken) = answer-delivered (post peer item.body) took in
            let done = mark_outbox_delivered_lem item.id item.id now db in
            (peer, fs, found, enabled, taken, ground arith, ground arith)
      ]

  -- A delivery that reports no success, of an event with an entry in the outbox and a row of sent
  -- events. If the dispatcher is stopping, nothing is changed. While it runs: while attempts are left
  -- the entry stays and is due again from the moment on at which its wait is over, with the state of
  -- the event as it was; after the last attempt it is never due again and the event is failed.
  pub deliver_event-false :
      (stop : Bool) (item : Work Event) (asked : Db) (now later : ℕ) (o : OutboxRow) (s : SentRow)
      (db db' : Db)
      → deliver_event codec crypto network sent_at nonce stop item asked now db
        ≡ (ok (some false), db')
      → find? (λ (o : OutboxRow). str_eq o.event_id item.id) db.outbox ≡ some o
      → find? (is_event item.id) db.sent ≡ some s
      → ((stop ≡ true) × (db' ≡ db))
        ⊎ ((stop ≡ false)
            × (due_entry item.id later db'
                ≡ some (
                    ltb (suc item.attempts) max_outbox_attempts
                    && leb (now + backoff (suc item.attempts)) later))
            × (sent_state item.id db'
                ≡ some (
                    if leb max_outbox_attempts (suc item.attempts) then State.failed else s.state)))
  unfolding deliver_event settle_event
  deliver_event-false true item asked now later o s db db' h ho hs =
      let post = λ (p : Peer) (e : Event).
        post_event codec crypto network asked.server_id p e sent_at nonce in
      let quiet = attempt-stopped post item asked in inl (refl, ground arith)
  deliver_event-false false item asked now later o s db db' h ho hs =
      let post = λ (p : Peer) (e : Event).
        post_event codec crypto network asked.server_id p e sent_at nonce in
      elim (Outcome-cases (attempt post false item asked)) [
        | inl e ↦ absurd (attempt-running post item asked e)
        | inr (inl e) ↦ absurd (ground arith)
        | inr (inr (inl e)) ↦ absurd (ground arith)
        | inr (inr (inr (error, e))) ↦
            let done =
              mark_outbox_failed_lem item.id error (suc item.attempts) now later o s db ho hs in
            inr (refl, ground arith, ground arith)
      ]

  -- A delivery out of which an exception comes has asked the enabled peer, and the request raised
  -- another exception than the error of a delivery; the entry of the event is as it was, the number of
  -- its attempts and its time included, and so is everything else.
  pub deliver_event-raised :
      (stop : Bool) (item : Work Event) (asked : Db) (now : ℕ) (db db' : Db)
      → deliver_event codec crypto network sent_at nonce stop item asked now db ≡ (ok none, db')
      → (peer : Peer) × (stop ≡ false)
        × (get_peer item.peer_id asked ≡ some peer)
        × (peer.enabled ≡ true)
        × (post_event codec crypto network asked.server_id peer item.body sent_at nonce ≡ raised)
        × (db' ≡ db)
  unfolding deliver_event settle_event
  deliver_event-raised stop item asked now db db' h =
      let post = λ (p : Peer) (e : Event).
        post_event codec crypto network asked.server_id p e sent_at nonce in
      elim (Outcome-cases (attempt post stop item asked)) [
        | inl e ↦ absurd (ground arith)
        | inr (inl e) ↦ absurd (ground arith)
        | inr (inr (inr (error, e))) ↦ absurd (ground arith)
        | inr (inr (inl e)) ↦
            let (peer, found, enabled, broke) =
              attempt-posted post stop item asked broken e (inr refl) in
            (
              peer,
              attempt-broken post stop item asked e,
              found,
              enabled,
              answer-broken (post peer item.body) broke,
              ground arith,
            )
      ]
