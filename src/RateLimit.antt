-- ===== src/RateLimit.antt =====
-- ratelimit.py: the sliding-window limiter. Times are readings of the monotonic clock, as numbers of
-- its ticks, and the window is a number of ticks too; the clock is an argument of the call.
pub mod Window
pub mod Rate
use home_assistant_chat_comp.Prelude.{
  ℕ, suc, ◌+◌, String, Bool, true, false, not, ◌&&◌, Option, none, some, List, [], ◌∷◌, ◌++◌, ltb,
  leb, str_eq, length, find?, any_row, delete_where, if◌then◌else◌,
}

-- a key with its queue, oldest time first
pub record Entry : Type 0 where
  pub key : String
  pub queue : List ℕ

pub record RateLimiter : Type 0 where
  pub limit : ℕ
  pub window : ℕ
  pub max_keys : ℕ
  pub entries : List Entry

abbrev pub is_key : String → Entry → Bool
is_key key e = str_eq e.key key

-- `self._entries[entry][-1] if self._entries[entry] else 0`
unfoldable pub last_time : List ℕ → ℕ
last_time [] = 0
last_time (t ∷ []) = t
last_time (t ∷ u ∷ ts) = last_time (u ∷ ts)

-- `min(self._entries, key=...)`: the first entry whose last time is least
unfoldable pub oldest : Entry → List Entry → Entry
unfolding last_time
oldest best [] = best
oldest best (e ∷ es) =
    oldest (if ltb (last_time e.queue) (last_time best.queue) then e else best) es

-- the eviction before a new key is added
unfoldable pub make_room : String → RateLimiter → List Entry
unfolding oldest
make_room key r = elim r.entries [
  | [] ↦ []
  | e ∷ es ↦
      if not (any_row (is_key key) (e ∷ es)) && leb r.max_keys (length (e ∷ es))
      then delete_where (is_key (oldest e es).key) (e ∷ es)
      else e ∷ es
]

-- `while queue and queue[0] <= cutoff: queue.popleft()`, where the cutoff is `now - window`
unfoldable pub drop_old : ℕ → ℕ → List ℕ → List ℕ
drop_old window now [] = []
drop_old window now (t ∷ ts) =
    let rest = drop_old window now ts in if leb (t + window) now then rest else t ∷ ts

-- `self._entries[key]`: an absent key gets an empty queue
abbrev pub queue_of : String → List Entry → List ℕ
queue_of key entries = elim (find? (is_key key) entries) [ none ↦ [] | some e ↦ e.queue ]

-- the entries with the queue of a key replaced; the dictionary keeps the place of a present key
unfoldable pub put_queue : String → List ℕ → List Entry → List Entry
put_queue key q [] = record { key = key; queue = q } ∷ []
put_queue key q (e ∷ es) =
    let rest = put_queue key q es in
    if is_key key e then record { key = key; queue = q } ∷ es else e ∷ rest

-- the decision on the queue of a key, and the queue after it
unfoldable pub admit : ℕ → ℕ → ℕ → List ℕ → Bool × List ℕ
admit limit window now queue =
    let recent = drop_old window now queue in
    if leb limit (length recent) then (false, recent) else (true, recent ++ now ∷ [])

-- A limiter has room for one key at least.
unfoldable pub allow : String → ℕ → RateLimiter → Bool × RateLimiter
allow key now r =
    let entries = make_room key r in
    let (allowed, queue) = admit r.limit r.window now (queue_of key entries) in
    (allowed, record r { entries = put_queue key queue entries })
