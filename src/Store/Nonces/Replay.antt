-- ===== src/Store/Nonces/Replay.antt =====
-- A nonce that was recorded stays recorded while its timestamp is recent.
use home_assistant_chat_comp.Prelude.{
  ℕ, ℤ, String, ◌+◌, ◌≤◌, ◌≡◌, ◌∙◌, Bool, true, false, ◌&&◌, leb, List, [], ◌∷◌, All, pos_part,
  neg_part, arith, eq_refl, any_row, any_row-delete, any_row_mono, delete_where,
}
use home_assistant_chat_comp.Schema.{Db, NonceRow}
use home_assistant_chat_comp.Exec.{ok}
use home_assistant_chat_comp.Store.Nonces.{
  is_nonce, is_forgotten, recent_nonces, record_federation_nonce,
}

-- A call of `record_federation_nonce`, with the time at which it is made.
pub record Call : Type 0 where
  pub peer_id : String
  pub nonce : String
  pub seen_at : ℤ
  pub now : ℕ

-- the calls of one run of the server, in order
unfoldable pub record_all : List Call → Db → Db
record_all [] db = db
record_all (c ∷ cs) db =
    record_all cs (record_federation_nonce c.peer_id c.nonce c.seen_at c.now db).1

-- the row is the nonce's, and its timestamp is at most 600 seconds before `now`
abbrev is_kept : String → String → ℕ → NonceRow → Bool
is_kept p n now r = is_nonce p n r && leb (now + neg_part r.seen_at) (pos_part r.seen_at + 600)

-- the table holds the nonce with a timestamp that is recent at `now`
abbrev pub Holds : String → String → ℕ → Db → Type 0
Holds p n now db = any_row (is_kept p n now) db.nonces ≡ true

is_kept-not-forgotten :
    (p n : String) (now now' : ℕ) (r : NonceRow)
    → now' ≤ now
    → is_kept p n now r ≡ true
    → is_forgotten now' r ≡ false
is_kept-not-forgotten p n now now' r le h = ground arith

module _ (p n : String) (now : ℕ) where
  Holds-recent :
      (now' : ℕ) (db : Db)
      → now' ≤ now
      → Holds p n now db
      → any_row (is_kept p n now) (recent_nonces now' db) ≡ true
  unfolding recent_nonces
  Holds-recent now' db le h =
      any_row-delete (is_kept p n now) (is_forgotten now') db.nonces
        (λ r. is_kept-not-forgotten p n now now' r le)
      ∙ h

  -- A recorded nonce that is recent is refused.
  pub Holds-refused :
      (t : ℤ) (now' : ℕ) (db : Db)
      → now' ≤ now
      → Holds p n now db
      → (record_federation_nonce p n t now' db).0 ≡ ok false
  unfolding record_federation_nonce recent_nonces
  Holds-refused t now' db le h = ground (
    arith,
    Holds-recent now' db le h,
    any_row_mono (is_kept p n now) (is_nonce p n) (delete_where (is_forgotten now') db.nonces)
        (λ r. ground arith),
  )

  -- No later call forgets it while it is recent.
  pub record_federation_nonce-Holds :
      (q m : String) (t : ℤ) (now' : ℕ) (db : Db)
      → now' ≤ now
      → Holds p n now db
      → Holds p n now (record_federation_nonce q m t now' db).1
  unfolding record_federation_nonce recent_nonces any_row
  record_federation_nonce-Holds q m t now' db le h = ground (arith, Holds-recent now' db le h)

  pub record_all-Holds :
      (calls : List Call) (db : Db)
      → All (λ c. c.now ≤ now) calls
      → Holds p n now db
      → Holds p n now (record_all calls db)
  unfolding record_all
  record_all-Holds [] db le h = h
  record_all-Holds (c ∷ cs) db le h =
      record_all-Holds cs (record_federation_nonce c.peer_id c.nonce c.seen_at c.now db).1 le.1
        (record_federation_nonce-Holds c.peer_id c.nonce c.seen_at c.now db le.0 h)

  -- The call that records it.
  pub recorded-Holds :
      (t : ℤ) (first : ℕ) (db : Db)
      → now + neg_part t ≤ pos_part t + 600
      → (record_federation_nonce p n t first db).0 ≡ ok true
      → Holds p n now (record_federation_nonce p n t first db).1
  unfolding record_federation_nonce any_row
  recorded-Holds t first db recent h = ground (arith, eq_refl p, eq_refl n)

-- A nonce that was recorded with timestamp t is refused by every later call for the same peer that
-- is made at most 600 seconds after t, whatever calls come in between, if no clock reading in
-- between is above that of the last call.
replay_refused :
    (p n : String) (t t' : ℤ) (first last : ℕ) (calls : List Call) (db : Db)
    → (record_federation_nonce p n t first db).0 ≡ ok true
    → All (λ c. c.now ≤ last) calls
    → last + neg_part t ≤ pos_part t + 600
    → (record_federation_nonce p n t' last
        (record_all calls (record_federation_nonce p n t first db).1)).0
      ≡ ok false
replay_refused p n t t' first last calls db done le recent =
    Holds-refused p n last t' last (record_all calls (record_federation_nonce p n t first db).1)
      (omega arith)
      (record_all-Holds p n last calls (record_federation_nonce p n t first db).1 le
        (recorded-Holds p n last t first db recent done))
