-- ===== src/Store/Outbox/Pages.antt =====
-- What a page of due work holds.
use home_assistant_chat_comp.Prelude.{
  ℕ, zero, suc, ◌&&◌, ◌-◌, ◌≤◌, ◌<◌, String, ◌≡◌, refl, Bool, true, false, List, [], ◌∷◌, arith,
  eq_iff, str_eq, ltb, length, take, All, All-take, All-order_by, All-mono, select-All, any_row,
  length-order_by, length-take-le, order_by, count_where-order_by, select, count_where,
  if◌then◌else◌, Bool-cases, inl, inr,
}
use home_assistant_chat_comp.Protocol.{max_outbox_attempts, max_outbox_per_peer}
use home_assistant_chat_comp.Schema.{OutboxRow, ReceiptRow}
use home_assistant_chat_comp.Store.Outbox.{
  peer_count, first_of_peer, outbox_before, outbox_peer, is_due, due_rows, receipt_before,
  receipt_peer, is_due_receipt, due_receipt_rows, is_read, has_pending_delivered,
}

module _ {A : Type 0} (peer_of : A → String) where
  peer_count-cons :
      (p : String) (r : A) (rows : List A)
      → peer_count peer_of p (r ∷ rows) ≡ (
          if str_eq (peer_of r) p
          then suc (peer_count peer_of p rows)
          else peer_count peer_of p rows)
  unfolding peer_count count_where
  peer_count-cons p r rows = refl

  peer_count-nil : (p : String) → peer_count peer_of p [] ≡ 0
  unfolding peer_count count_where
  peer_count-nil p = refl

  peer_count-first_of_peer :
      (p : String) (seen rows : List A)
      → peer_count peer_of p (first_of_peer peer_of seen rows)
        ≤ max_outbox_per_peer - peer_count peer_of p seen
  unfolding first_of_peer
  peer_count-first_of_peer p seen [] = ground (arith, peer_count-nil p)
  peer_count-first_of_peer p seen (r ∷ rows) = ground (
    arith,
    eq_iff (peer_of r) p,
    peer_count-cons p r seen,
    peer_count-cons p r (first_of_peer peer_of (r ∷ seen) rows),
    peer_count-first_of_peer p (r ∷ seen) rows,
  )

  peer_count-take :
      (p : String) (n : ℕ) (rows : List A)
      → peer_count peer_of p (take n rows) ≤ peer_count peer_of p rows
  peer_count-take p zero rows = omega (arith, peer_count-nil p)
  peer_count-take p (suc n) [] = omega arith
  peer_count-take p (suc n) (r ∷ rows) =
      ground (
        arith,
        peer_count-cons p r rows,
        peer_count-cons p r (take n rows),
        peer_count-take p n rows,
      )

  peer_count-order_by :
      (before : A → A → Bool) (p : String) (rows : List A)
      → peer_count peer_of p (order_by before rows) ≡ peer_count peer_of p rows
  unfolding peer_count
  peer_count-order_by before p rows = count_where-order_by before (λ r. str_eq (peer_of r) p) rows

  -- A page, in any order, holds at most four rows of a peer.
  peer_count-page :
      (before : A → A → Bool) (p : String) (limit : ℕ) (rows : List A)
      → peer_count peer_of p (take limit (order_by before (first_of_peer peer_of [] rows)))
        ≤ max_outbox_per_peer
  peer_count-page before p limit rows = omega (
    arith,
    peer_count-take p limit (order_by before (first_of_peer peer_of [] rows)),
    peer_count-order_by before p (first_of_peer peer_of [] rows),
    peer_count-first_of_peer p [] rows,
  )

  All-first_of_peer :
      (P : A → Type 0) (seen rows : List A) → All P rows → All P (first_of_peer peer_of seen rows)
  unfolding first_of_peer
  All-first_of_peer P seen [] a = tt
  All-first_of_peer P seen (r ∷ rows) a =
      elim (Bool-cases (ltb (peer_count peer_of (peer_of r) seen) max_outbox_per_peer)) [
        | inl e ↦ rw e (a.0, All-first_of_peer P (r ∷ seen) rows a.1)
        | inr e ↦ rw e (All-first_of_peer P (r ∷ seen) rows a.1)
      ]

-- Whether some row fits, as a length.
any_row-select :
    {A : Type 0} (p : A → Bool) (rows : List A) → any_row p rows ≡ true → 0 < length (select p rows)
unfolding any_row select
any_row-select p [] h = cc
any_row-select p (r ∷ rows) h = ground (arith, any_row-select p rows)

module _ {A : Type 0} (peer_of : A → String) (before : A → A → Bool) (limit : ℕ) where
  -- the shape of both queries, over the rows that fit
  abbrev page : List A → List A
  page rows = take limit (order_by before (first_of_peer peer_of [] (order_by before rows)))

  All-page : (P : A → Type 0) (rows : List A) → All P rows → All P (page rows)
  All-page P rows a =
      All-take P limit (order_by before (first_of_peer peer_of [] (order_by before rows))) (
        All-order_by P before (first_of_peer peer_of [] (order_by before rows))
          (All-first_of_peer peer_of P [] (order_by before rows) (All-order_by P before rows a)))

  first_of_peer_pos : (rows : List A) → 0 < length rows → 0 < length (first_of_peer peer_of [] rows)
  unfolding first_of_peer
  first_of_peer_pos [] h = h
  first_of_peer_pos (r ∷ rows) h = ground (arith, peer_count-nil peer_of (peer_of r))

  take_pos : (n : ℕ) (rows : List A) → 0 < n → 0 < length rows → 0 < length (take n rows)
  take_pos zero rows h k = h
  take_pos (suc n) [] h k = k
  take_pos (suc n) (r ∷ rows) h k = omega arith

  page_pos : (rows : List A) → 0 < limit → 0 < length rows → 0 < length (page rows)
  page_pos rows h k =
      take_pos limit (order_by before (first_of_peer peer_of [] (order_by before rows))) h (
        omega (
          arith,
          length-order_by before (first_of_peer peer_of [] (order_by before rows)),
          first_of_peer_pos (order_by before rows) (omega (arith, length-order_by before rows)),
        ))

is_due-parts :
    (now : ℕ) (o : OutboxRow)
    → is_due now o ≡ true
    → (o.next_attempt_at ≤ now) × (o.attempts < max_outbox_attempts)
is_due-parts now o h = ground arith

-- A page of the outbox has at most `limit` rows and at most four rows of any peer, and each of its
-- rows is due and has attempts left.
pub due_rows_page :
    (now limit : ℕ) (rows : List OutboxRow)
    → (length (due_rows now limit rows) ≤ limit)
      × ((p : String) → peer_count outbox_peer p (due_rows now limit rows) ≤ max_outbox_per_peer)
      × All
          (λ (o : OutboxRow). (o.next_attempt_at ≤ now) × (o.attempts < max_outbox_attempts))
          (due_rows now limit rows)
unfolding due_rows
due_rows_page now limit rows = (
  length-take-le limit _,
  λ p.
      peer_count-page outbox_peer outbox_before p limit
        (order_by outbox_before (select (is_due now) rows)),
  All-page outbox_peer outbox_before limit
      (λ o. (o.next_attempt_at ≤ now) × (o.attempts < max_outbox_attempts))
      (select (is_due now) rows)
      (All-mono (λ o. is_due now o ≡ true)
        (λ o. (o.next_attempt_at ≤ now) × (o.attempts < max_outbox_attempts)) (is_due-parts now)
        (select (is_due now) rows) (select-All (is_due now) rows)),
)

-- While some row of the outbox is due, a page with a limit above 0 is not empty.
pub due_rows_progress :
    (now limit : ℕ) (rows : List OutboxRow)
    → 0 < limit
    → any_row (is_due now) rows ≡ true
    → 0 < length (due_rows now limit rows)
unfolding due_rows
due_rows_progress now limit rows h k =
    page_pos outbox_peer outbox_before limit (select (is_due now) rows) h
      (any_row-select (is_due now) rows k)

-- What the query asks of a receipt.
abbrev pub MaySend : ℕ → List ReceiptRow → ReceiptRow → Type 0
MaySend now rows r =
    (r.next_attempt_at ≤ now)
    × (r.attempts < max_outbox_attempts)
    × (is_read r.state && has_pending_delivered rows r ≡ false)

is_due_receipt-MaySend :
    (now : ℕ) (rows : List ReceiptRow) (r : ReceiptRow)
    → is_due_receipt now rows r ≡ true
    → MaySend now rows r
is_due_receipt-MaySend now rows r h = (ground arith, ground arith, ground arith)

-- A page of receipts has at most `limit` rows and at most four rows of any peer; each of its rows is
-- due and has attempts left, and a receipt of a reading is not among them while a receipt of the
-- delivery of the same event waits for the same peer.
due_receipt_rows_page :
    (now limit : ℕ) (rows : List ReceiptRow)
    → (length (due_receipt_rows now limit rows) ≤ limit)
      × ((p : String)
          → peer_count receipt_peer p (due_receipt_rows now limit rows) ≤ max_outbox_per_peer)
      × All (MaySend now rows) (due_receipt_rows now limit rows)
unfolding due_receipt_rows
due_receipt_rows_page now limit rows = (
  length-take-le limit _,
  λ p.
      peer_count-page receipt_peer receipt_before p limit
        (order_by receipt_before (select (is_due_receipt now rows) rows)),
  All-page receipt_peer receipt_before limit (MaySend now rows)
      (select (is_due_receipt now rows) rows)
      (All-mono (λ r. is_due_receipt now rows r ≡ true) (MaySend now rows)
        (is_due_receipt-MaySend now rows) (select (is_due_receipt now rows) rows)
        (select-All (is_due_receipt now rows) rows)),
)
