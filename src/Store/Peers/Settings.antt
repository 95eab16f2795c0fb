-- ===== src/Store/Peers/Settings.antt =====
-- What a peer that was added or configured is read back as.
use home_assistant_chat_comp.Prelude.{
  ℕ, String, ◌≡◌, refl, ap, sym, ◌∙◌, true, Option, some, List, arith, eq_refl, eq_iff,
  find?-no_row, find?-any_row, find?, find?-hits, find?-update, Option-cases, inl, inr,
}
use home_assistant_chat_comp.Address.{IpAddress}
use home_assistant_chat_comp.Schema.{Db, PeerRow, TransportRow}
use home_assistant_chat_comp.Exec.{ok, rollback-ok, Result-cases}
use home_assistant_chat_comp.Security.{Crypto}
use home_assistant_chat_comp.Store.Peers.{Peer, is_peer, join_transport, get_peer}
use home_assistant_chat_comp.Store.Peers.Configure.{
  Settings, check_settings, peer_of, peer_row, transport_row, is_transport, insert_peer, add_peer,
  upsert_peer, upsert_transport, put_peer, with_secret, configure_peer,
}

-- the row of a peer after the upsert
find?-upsert_peer :
    (p : Peer) (now : ℕ) (rows : List PeerRow)
    → (row : PeerRow) × (find? (is_peer p.peer_id) (upsert_peer p now rows) ≡ some row)
      × (row.peer_id ≡ p.peer_id)
      × (row.address ≡ p.address)
      × (row.port ≡ p.port)
      × (row.shared_secret ≡ p.shared_secret)
      × (row.enabled ≡ true)
unfolding upsert_peer find?
find?-upsert_peer p now rows = elim (Option-cases (find? (is_peer p.peer_id) rows)) [
  | inl gone ↦ (
    peer_row p now,
    ground (arith, find?-no_row (is_peer p.peer_id) rows, eq_refl p.peer_id),
    refl,
    refl,
    refl,
    refl,
    refl,
  )
  | inr (q, found) ↦ (
    record q {
      address = p.address;
      port = p.port;
      shared_secret = p.shared_secret;
      enabled = true;
    },
    ground (
      arith,
      find?-any_row (is_peer p.peer_id) rows q found,
      find?-hits (is_peer p.peer_id) rows,
      find?-update (is_peer p.peer_id) (is_peer p.peer_id)
          (λ q. record q {
            address = p.address;
            port = p.port;
            shared_secret = p.shared_secret;
            enabled = true;
          })
          rows (λ q. refl),
    ),
    ground (arith, find?-hits (is_peer p.peer_id) rows, eq_iff q.peer_id p.peer_id),
    refl,
    refl,
    refl,
    refl,
  )
]

find?-upsert_transport :
    (p : Peer) (rows : List TransportRow)
    → (t : TransportRow) × (find? (is_transport p.peer_id) (upsert_transport p rows) ≡ some t)
      × (t.use_tls ≡ p.use_tls)
      × (t.tls_server_name ≡ p.tls_server_name)
unfolding upsert_transport find?
find?-upsert_transport p rows = elim (Option-cases (find? (is_transport p.peer_id) rows)) [
  | inl gone ↦ (
    transport_row p,
    ground (arith, find?-no_row (is_transport p.peer_id) rows, eq_refl p.peer_id),
    refl,
    refl,
  )
  | inr (t, found) ↦ (
    record t { use_tls = p.use_tls; tls_server_name = p.tls_server_name },
    ground (
      arith,
      find?-any_row (is_transport p.peer_id) rows t found,
      find?-hits (is_transport p.peer_id) rows,
      find?-update (is_transport p.peer_id) (is_transport p.peer_id)
          (λ t. record t { use_tls = p.use_tls; tls_server_name = p.tls_server_name }) rows
          (λ t. refl),
    ),
    refl,
    refl,
  )
]

-- A row and its transport, joined.
joined :
    (p : Peer) (row : PeerRow) (t : TransportRow) (rows : List TransportRow)
    → row.peer_id ≡ p.peer_id
    → row.address ≡ p.address
    → row.port ≡ p.port
    → row.shared_secret ≡ p.shared_secret
    → row.enabled ≡ p.enabled
    → find? (is_transport p.peer_id) rows ≡ some t
    → t.use_tls ≡ p.use_tls
    → t.tls_server_name ≡ p.tls_server_name
    → join_transport rows row ≡ p
joined p row t rows i a o s n found u v =
    let f : find? (is_transport row.peer_id) rows ≡ some t =
      ap (λ x. find? (is_transport x) rows) i ∙ found in
    ground arith

put_peer-row :
    (p q : Peer) (now : ℕ) (db db' : Db)
    → put_peer p now db ≡ (ok q, db')
    → (q ≡ p)
      × (db'.peers ≡ upsert_peer p now db.peers)
      × (db'.transports ≡ upsert_transport p db.transports)
unfolding put_peer
put_peer-row p q now db db' h = ground arith

-- After both upserts the peer is read back.
put_peer-get_peer :
    (p q : Peer) (now : ℕ) (db db' : Db)
    → p.enabled ≡ true
    → put_peer p now db ≡ (ok q, db')
    → (q ≡ p) × (get_peer p.peer_id db' ≡ some p)
unfolding get_peer
put_peer-get_peer p q now db db' on h =
    let r = find?-upsert_peer p now db.peers in
    let t = find?-upsert_transport p db.transports in
    let w = put_peer-row p q now db db' h in
    let f : find? (is_transport p.peer_id) db'.transports ≡ some t.0 =
      ap (λ x. find? (is_transport p.peer_id) x) w.2 ∙ t.1 in
    let j = joined p r.0 t.0 db'.transports r.2 r.3 r.4 r.5 (r.6 ∙ sym on) f t.2 t.3 in
    let g : find? (is_peer p.peer_id) db'.peers ≡ some r.0 =
      ap (λ x. find? (is_peer p.peer_id) x) w.1 ∙ r.1 in
    (w.0, ground (arith, j, g))

insert_peer-get_peer :
    (p q : Peer) (now : ℕ) (db db' : Db)
    → p.enabled ≡ true
    → insert_peer p now db ≡ (ok q, db')
    → (q ≡ p) × (get_peer p.peer_id db' ≡ some p)
unfolding insert_peer get_peer find?
insert_peer-get_peer p q now db db' on h = ground (arith, eq_refl p.peer_id)

module _ (crypto : Crypto) (ip_address : String → Option IpAddress) (s : Settings) (now : ℕ) where
  check_settings-db : (db : Db) → (check_settings crypto ip_address s db).1 ≡ db
  unfolding check_settings
  check_settings-db db = ground arith

  -- A peer that was configured is read back as it was returned, enabled, under its id: also where the
  -- peer was there before, with another address, secret or transport, or disabled.
  pub configure_peer-get_peer :
      (q : Peer) (db db' : Db)
      → configure_peer crypto ip_address s now db ≡ (ok q, db')
      → (q.peer_id ≡ s.peer_id) × (q.enabled ≡ true) × (get_peer s.peer_id db' ≡ some q)
  unfolding configure_peer
  configure_peer-get_peer q db db' h = elim (Result-cases (check_settings crypto ip_address s db)) [
    | inr (e, mid, stopped) ↦ absurd (ground arith)
    | inl (c, mid, checked) ↦
        let p = peer_of s c in
        let made : put_peer p now mid ≡ (ok q, db') =
          rollback-ok mid db' q (put_peer p now mid) (ground arith) in
        let g = put_peer-get_peer p q now mid db' refl made in
        (ground arith, ground arith, ground arith)
  ]

  -- A peer that was added is read back as it was returned, enabled, under its id.
  add_peer-get_peer :
      (drawn : String) (q : Peer) (db db' : Db)
      → add_peer crypto ip_address drawn s now db ≡ (ok q, db')
      → (q.peer_id ≡ s.peer_id) × (q.enabled ≡ true) × (get_peer s.peer_id db' ≡ some q)
  unfolding add_peer
  add_peer-get_peer drawn q db db' h =
      elim (Result-cases (check_settings crypto ip_address (with_secret drawn s) db)) [
        | inr (e, mid, stopped) ↦ absurd (ground arith)
        | inl (c, mid, checked) ↦
            let p = peer_of (with_secret drawn s) c in
            let made : insert_peer p now mid ≡ (ok q, db') =
              rollback-ok mid db' q (insert_peer p now mid) (ground arith) in
            let g = insert_peer-get_peer p q now mid db' refl made in
            (ground arith, ground arith, ground arith)
      ]
