-- ===== src/Store/States.antt =====
-- The state of an event as its sender sees it, which the theorems on receipts and deliveries track.
use home_assistant_chat_comp.Prelude.{
  ℕ, String, ◌≡◌, Option, none, some, List, [], ◌∷◌, arith, eq_iff, str_eq, find?, update_where,
  if◌then◌else◌,
}
use home_assistant_chat_comp.Schema.{Db, State, SentRow}
use home_assistant_chat_comp.Store.Receipts.{is_event, is_entry, rank, prior_rank}

-- the state of an event, and its rank
abbrev pub sent_state : String → Db → Option State
sent_state event_id db = elim (find? (is_event event_id) db.sent) [
  | none ↦ none
  | some s ↦ some s.state
]

abbrev pub opt_rank : Option State → ℕ
opt_rank none = 0
opt_rank (some s) = rank s

-- how far an entry of an account's inbox has come: 0 accepted, 1 delivered, 2 read
abbrev pub entry_rank : String → String → Db → Option ℕ
entry_rank account_id event_id db = elim (find? (is_entry account_id event_id) db.inbox) [
  | none ↦ none
  | some i ↦ some (prior_rank i)
]

-- An update of one event leaves every other event alone.
pub find?-update_event :
    (id other : String) (f : SentRow → SentRow) (rows : List SentRow)
    → ((s : SentRow) → (f s).event_id ≡ s.event_id)
    → find? (is_event other) (update_where (is_event id) f rows) ≡ (
        if str_eq id other
        then (elim (find? (is_event other) rows) [ none ↦ none | some s ↦ some (f s) ])
        else find? (is_event other) rows)
unfolding find? update_where
find?-update_event id other f [] h = ground arith
find?-update_event id other f (s ∷ rows) h = ground (
  arith,
  h s,
  eq_iff id other,
  eq_iff s.event_id id,
  eq_iff s.event_id other,
  eq_iff (f s).event_id other,
  find?-update_event id other f rows h,
)
