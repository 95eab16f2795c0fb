-- ===== src/RateLimit/Rate.antt =====
-- The rate at which the calls of one key are allowed.
use home_assistant_chat_comp.Prelude.{
  ℕ, ◌+◌, ◌≤◌, String, ◌≡◌, refl, true, false, ◌&&◌, List, [], ◌∷◌, arith, str_eq, eq_iff, length,
  All, find?, find?-delete_none, any_row, any_row-find?, count_where, delete_where, Bool-cases, inl,
  inr, if◌then◌else◌,
}
use home_assistant_chat_comp.RateLimit.{
  Entry, RateLimiter, is_key, oldest, make_room, queue_of, admit, allow,
}
use home_assistant_chat_comp.RateLimit.Window.{
  is_live, admit-live, allow_lem, queue_of-put_queue, count_where-le-length,
}

-- a call of `allow`
pub record Asked : Type 0 where
  pub caller : String
  pub time : ℕ

-- the times at which calls of the key are allowed, among the calls of all keys
unfoldable pub granted : String → List Asked → RateLimiter → List ℕ
unfolding allow
granted key [] r = []
granted key (c ∷ calls) r =
    let rest = granted key calls (allow c.caller c.time r).1 in
    if str_eq c.caller key && (allow c.caller c.time r).0 then c.time ∷ rest else rest

-- No call evicts the key to make room for another one.
unfoldable pub Spares : String → List Asked → RateLimiter → Type 0
unfolding allow
Spares key [] r = Unit
Spares key (c ∷ calls) r =
    (any_row (is_key key) (make_room c.caller r) ≡ any_row (is_key key) r.entries)
    × Spares key calls (allow c.caller c.time r).1

find?-delete_other :
    (key other : String) (es : List Entry)
    → str_eq other key ≡ false
    → find? (is_key key) (delete_where (is_key other) es) ≡ find? (is_key key) es
unfolding find? delete_where
find?-delete_other key other [] h = refl
find?-delete_other key other (e ∷ es) h =
    ground (arith, eq_iff e.key other, eq_iff e.key key, find?-delete_other key other es)

any_row-delete_key :
    (key other : String) (es : List Entry)
    → str_eq other key ≡ true
    → any_row (is_key key) (delete_where (is_key other) es) ≡ false
unfolding any_row delete_where
any_row-delete_key key other [] h = refl
any_row-delete_key key other (e ∷ es) h =
    ground (arith, eq_iff other key, any_row-delete_key key other es)

-- An eviction that leaves the key in leaves its queue.
queue_of-delete :
    (key other : String) (es : List Entry)
    → any_row (is_key key) (delete_where (is_key other) es) ≡ any_row (is_key key) es
    → queue_of key (delete_where (is_key other) es) ≡ queue_of key es
queue_of-delete key other es h = elim (Bool-cases (str_eq other key)) [
  | inl same ↦ ground (
    arith,
    any_row-delete_key key other es,
    any_row-find? (is_key key) es,
    find?-delete_none (is_key key) (is_key other) es,
  )
  | inr differs ↦ ground (arith, find?-delete_other key other es differs)
]

queue_of-spared :
    (key caller : String) (r : RateLimiter)
    → any_row (is_key key) (make_room caller r) ≡ any_row (is_key key) r.entries
    → queue_of key (make_room caller r) ≡ queue_of key r.entries
unfolding make_room
queue_of-spared key caller r h = room r.entries h
  where
    room :
        (es : List Entry)
        → any_row (is_key key) (make_room caller (record r { entries = es }))
          ≡ any_row (is_key key) es
        → queue_of key (make_room caller (record r { entries = es })) ≡ queue_of key es
    room [] k = refl
    room (e ∷ es) k = ground (arith, queue_of-delete key (oldest e es).key (e ∷ es))

-- A call of another key that spares this one leaves its queue.
allow-other :
    (key caller : String) (now : ℕ) (r : RateLimiter)
    → str_eq caller key ≡ false
    → any_row (is_key key) (make_room caller r) ≡ any_row (is_key key) r.entries
    → queue_of key (allow caller now r).1.entries ≡ queue_of key r.entries
unfolding allow
allow-other key caller now r differs spared = ground (
  arith,
  queue_of-put_queue caller key
      (admit r.limit r.window now (queue_of caller (make_room caller r))).1 (make_room caller r),
  queue_of-spared key caller r spared,
)

-- A call changes neither the limit nor the window.
allow-settings :
    (key : String) (now : ℕ) (r : RateLimiter)
    → ((allow key now r).1.limit ≡ r.limit) × ((allow key now r).1.window ≡ r.window)
unfolding allow
allow-settings key now r = (refl, refl)

-- Of the calls of `allow`, by any keys, that come up to a time t and evict the key of interest at no
-- point, no more than `limit` calls of that key are allowed in the window that ends at t, those that
-- its queue held before included, if its queue held no more than `limit`.
pub granted_rate :
    (key : String) (t : ℕ) (calls : List Asked) (r : RateLimiter)
    → length (queue_of key r.entries) ≤ r.limit
    → All (λ (c : Asked). c.time ≤ t) calls
    → Spares key calls r
    → count_where (is_live r.window t) (granted key calls r)
        + count_where (is_live r.window t) (queue_of key r.entries)
      ≤ r.limit
unfolding granted Spares count_where
granted_rate key t [] r h a s =
    omega (arith, count_where-le-length (is_live r.window t) (queue_of key r.entries))
granted_rate key t (c ∷ calls) r h a s =
    let next = (allow c.caller c.time r).1 in
    elim (Bool-cases (str_eq c.caller key)) [
      | inl own ↦
          let same = (eq_iff c.caller key).0 own in
          ground (
            arith,
            same,
            admit-live r.limit r.window c.time t (queue_of key r.entries) a.0 h,
            allow_lem c.caller c.time r,
            allow-settings c.caller c.time r,
            granted_rate key t calls next,
          )
      | inr other ↦ ground (
        arith,
        allow-other key c.caller c.time r other s.0,
        allow-settings c.caller c.time r,
        granted_rate key t calls next,
      )
    ]
