-- ===== src/Store/Cleanup.antt =====
-- `_cleanup_expired_locked` and `_ensure_event_quota_locked`.
pub mod Bounds
use Prim.Native.String.{count}
use home_assistant_chat_comp.Prelude.{
  ℕ, ◌+◌, String, Bool, true, false, ◌&&◌, ◌||◌, Option, none, some, List, [], ◌∷◌, ltb, leb,
  str_eq, length, select, any_row, delete_where, if◌then◌else◌,
}
use home_assistant_chat_comp.Protocol.{
  max_account_events, max_account_event_bytes, max_outbox_attempts, message_ttl_seconds,
}
use home_assistant_chat_comp.Schema.{
  Db, SessionRow, KeyPackageRow, SentRow, InboxRow, OutboxRow, RouteRow, ReceiptRow,
}
use home_assistant_chat_comp.Schema.Event.{Json}
use home_assistant_chat_comp.Exec.{Method, raise_if, pure, gets, event_quota_exceeded, ◌>>=◌, ◌>>◌}

-- `DELETE FROM sent_events WHERE p`: the rows of `federation_outbox` and `event_routes` that refer
-- to a deleted event go with it (`ON DELETE CASCADE`).
unfoldable pub delete_sent : (SentRow → Bool) → Db → Db
delete_sent p db =
    let gone = select p db.sent in
    let refers = λ (id : String). any_row (λ (s : SentRow). str_eq s.event_id id) gone in
    record db {
      sent = delete_where p db.sent;
      outbox = delete_where (λ (o : OutboxRow). refers o.event_id) db.outbox;
      routes = delete_where (λ (r : RouteRow). refers r.event_id) db.routes;
    }

-- `consumed_at IS NOT NULL AND consumed_at <= now - MESSAGE_TTL_SECONDS`
abbrev pub is_spent : ℕ → KeyPackageRow → Bool
is_spent now k = elim k.consumed_at [ none ↦ false | some t ↦ leb (t + message_ttl_seconds) now ]

module _ (json : Json) where
  unfoldable pub cleanup_expired : ℕ → Db → Db
  unfolding delete_sent
  cleanup_expired now db =
      let swept =
        delete_sent (λ (s : SentRow). leb (json.extract_expires_at s.event_json) now) db in
      record swept {
        inbox =
            delete_where (λ (i : InboxRow). leb (json.extract_expires_at i.event_json) now)
              db.inbox;
        receipts =
            delete_where
              (λ (r : ReceiptRow).
                leb max_outbox_attempts r.attempts
                || leb (json.extract_created_at r.receipt_json + message_ttl_seconds) now)
              db.receipts;
        key_packages = delete_where (is_spent now) db.key_packages;
        sessions = delete_where (λ (s : SessionRow). leb s.expires_at now) db.sessions;
      }

-- the two tables that have a quota, with their columns
pub data QuotaTable : Type 0 where
  sent_events inbox_events : QuotaTable

-- the texts of an account's events in a table
unfoldable pub sent_texts : String → List SentRow → List String
sent_texts account_id [] = []
sent_texts account_id (s ∷ rows) =
    let rest = sent_texts account_id rows in
    if str_eq s.account_id account_id then s.event_json ∷ rest else rest

unfoldable pub inbox_texts : String → List InboxRow → List String
inbox_texts account_id [] = []
inbox_texts account_id (i ∷ rows) =
    let rest = inbox_texts account_id rows in
    if str_eq i.recipient_account_id account_id then i.event_json ∷ rest else rest

unfoldable pub quota_texts : QuotaTable → String → Db → List String
unfolding sent_texts inbox_texts
quota_texts sent_events account_id db = sent_texts account_id db.sent
quota_texts inbox_events account_id db = inbox_texts account_id db.inbox

-- `sum(length(event_json))`: SQLite counts characters
unfoldable pub total_size : List String → ℕ
total_size [] = 0
total_size (t ∷ ts) = count t + total_size ts

unfoldable pub ensure_event_quota : QuotaTable → String → ℕ → Method (Unit {0})
unfolding quota_texts total_size
ensure_event_quota table account_id incoming_bytes = do
  texts ← gets (quota_texts table account_id)
  raise_if (leb max_account_events (length texts)) event_quota_exceeded
  raise_if (ltb max_account_event_bytes (total_size texts + incoming_bytes)) event_quota_exceeded
