-- ===== src/Store/Cleanup/Bounds.antt =====
-- The quota of an account's events: how the statements on the two tables keep it.
use Prim.Native.String.{len}
use home_assistant_chat_comp.Prelude.{
  ◌≤◌, String, ◌≡◌, refl, Bool, List, [], ◌∷◌, arith, length, delete_where, update_where, eq_iff,
}
use home_assistant_chat_comp.Protocol.{max_account_events, max_account_event_bytes}
use home_assistant_chat_comp.Text.Size.{count-le-len}
use home_assistant_chat_comp.Schema.{Db, SentRow, InboxRow}
use home_assistant_chat_comp.Exec.{ok}
use home_assistant_chat_comp.Store.Cleanup.{
  sent_events, inbox_events, sent_texts, inbox_texts, total_size, ensure_event_quota,
}

-- The texts are within the quota of one account.
pub record Fits (texts : List String) : Type 0 where
  pub count_fits : length texts ≤ max_account_events
  pub bytes_fit : total_size texts ≤ max_account_event_bytes

-- Fewer and shorter texts fit as well.
abbrev pub IsLess : List String → List String → Type 0
IsLess few many = (length few ≤ length many) × (total_size few ≤ total_size many)

pub Fits-less : {few many : List String} → IsLess few many → Fits many → Fits few
Fits-less h f = omega arith

module _ (a : String) where
  pub sent_texts-delete :
      (q : SentRow → Bool) (rows : List SentRow)
      → IsLess (sent_texts a (delete_where q rows)) (sent_texts a rows)
  unfolding sent_texts delete_where total_size
  sent_texts-delete q [] = omega arith
  sent_texts-delete q (s ∷ rows) = ground (arith, sent_texts-delete q rows)

  pub inbox_texts-delete :
      (q : InboxRow → Bool) (rows : List InboxRow)
      → IsLess (inbox_texts a (delete_where q rows)) (inbox_texts a rows)
  unfolding inbox_texts delete_where total_size
  inbox_texts-delete q [] = omega arith
  inbox_texts-delete q (s ∷ rows) = ground (arith, inbox_texts-delete q rows)

  -- An update of other columns.
  pub sent_texts-update :
      (q : SentRow → Bool) (f : SentRow → SentRow) (rows : List SentRow)
      → ((s : SentRow) → ((f s).account_id ≡ s.account_id) × ((f s).event_json ≡ s.event_json))
      → sent_texts a (update_where q f rows) ≡ sent_texts a rows
  unfolding sent_texts update_where
  sent_texts-update q f [] h = refl
  sent_texts-update q f (s ∷ rows) h = ground (arith, h s, sent_texts-update q f rows h)

  pub inbox_texts-update :
      (q : InboxRow → Bool) (f : InboxRow → InboxRow) (rows : List InboxRow)
      → ((i : InboxRow)
          → ((f i).recipient_account_id ≡ i.recipient_account_id)
            × ((f i).event_json ≡ i.event_json))
      → inbox_texts a (update_where q f rows) ≡ inbox_texts a rows
  unfolding inbox_texts update_where
  inbox_texts-update q f [] h = refl
  inbox_texts-update q f (s ∷ rows) h = ground (arith, h s, inbox_texts-update q f rows h)

  -- A row that the quota admits.
  pub sent_texts-insert :
      (row : SentRow) (owner : String) (db : Db)
      → (ensure_event_quota sent_events owner (len row.event_json) db).0 ≡ ok tt
      → row.account_id ≡ owner
      → Fits (sent_texts a db.sent)
      → Fits (sent_texts a (row ∷ db.sent))
  unfolding ensure_event_quota sent_texts total_size
  sent_texts-insert row owner db h e f =
      ground (arith, eq_iff row.account_id a, count-le-len row.event_json)

  pub inbox_texts-insert :
      (row : InboxRow) (owner : String) (db : Db)
      → (ensure_event_quota inbox_events owner (len row.event_json) db).0 ≡ ok tt
      → row.recipient_account_id ≡ owner
      → Fits (inbox_texts a db.inbox)
      → Fits (inbox_texts a (row ∷ db.inbox))
  unfolding ensure_event_quota inbox_texts total_size
  inbox_texts-insert row owner db h e f =
      ground (arith, eq_iff row.recipient_account_id a, count-le-len row.event_json)
