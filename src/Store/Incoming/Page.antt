-- ===== src/Store/Incoming/Page.antt =====
-- What a page of the inbox holds.
use home_assistant_chat_comp.Prelude.{
  ℕ, ◌≤◌, ◌<◌, String, ◌≡◌, Bool, true, false, none, arith, length, All, take-all, length-take-le,
  select, select-All, All-mono, All-take, All-order_by, order_by, IsOrdered, order_by-IsOrdered,
  take-IsOrdered, length-order_by, count_where, count_where-order_by, count_where-select, eq_iff,
}
use home_assistant_chat_comp.Schema.{Db, InboxRow}
use home_assistant_chat_comp.Schema.Event.{Json}
use home_assistant_chat_comp.Store.Incoming.{is_before, is_waiting, inbox_rows}

is_before-le : (a b : InboxRow) → is_before a b ≡ true → a.accepted_at ≤ b.accepted_at
unfolding is_before
is_before-le a b h = ground arith

not-is_before-le : (a b : InboxRow) → is_before a b ≡ false → b.accepted_at ≤ a.accepted_at
unfolding is_before
not-is_before-le a b h = ground arith

-- What the query asks of a row.
abbrev pub Waits : Json → String → ℕ → InboxRow → Type 0
Waits json a now i =
    (i.recipient_account_id ≡ a)
    × (i.delivered_at ≡ none)
    × (now < json.extract_expires_at i.event_json)

abbrev pub Older : InboxRow → InboxRow → Type 0
Older i j = i.accepted_at ≤ j.accepted_at

is_waiting-Waits :
    (json : Json) (a : String) (now : ℕ) (i : InboxRow)
    → is_waiting json a now i ≡ true
    → Waits json a now i
is_waiting-Waits json a now i h = ground (arith, eq_iff i.recipient_account_id a)

module _ (json : Json) (a : String) (limit now : ℕ) (db : Db) where
  -- A page of the inbox has at most `limit` rows, oldest first, and each belongs to the account, is
  -- not delivered yet and has not expired.
  pub inbox_rows_page :
      (length (inbox_rows json a limit now db) ≤ limit)
      × All (Waits json a now) (inbox_rows json a limit now db)
      × IsOrdered Older (inbox_rows json a limit now db)
  unfolding inbox_rows
  inbox_rows_page =
      let waiting = select (is_waiting json a now) db.inbox in
      (
        length-take-le limit _,
        All-take (Waits json a now) limit (order_by is_before waiting) (
            All-order_by (Waits json a now) is_before waiting (
              All-mono (λ i. is_waiting json a now i ≡ true) (Waits json a now)
                (is_waiting-Waits json a now) waiting
                (select-All (is_waiting json a now) db.inbox))),
        take-IsOrdered Older limit (order_by is_before waiting) (
            order_by-IsOrdered Older is_before is_before-le not-is_before-le
              (λ i j k p q. omega arith) waiting),
      )

  -- If no more than `limit` rows of the inbox wait for the account, none is left out: rows of any
  -- kind are as many on the page as among those that wait.
  pub inbox_rows_complete :
      (p : InboxRow → Bool)
      → count_where (is_waiting json a now) db.inbox ≤ limit
      → count_where p (inbox_rows json a limit now db)
        ≡ count_where p (select (is_waiting json a now) db.inbox)
  unfolding inbox_rows
  inbox_rows_complete p h =
      let waiting = select (is_waiting json a now) db.inbox in
      rw
        (take-all limit (order_by is_before waiting) (
          omega (
            arith,
            length-order_by is_before waiting,
            count_where-select (is_waiting json a now) db.inbox,
          )))
        (count_where-order_by is_before p waiting)
