-- ===== src/RateLimit/Window.antt =====
-- What the limiter guarantees.
use home_assistant_chat_comp.Prelude.{
  ℕ, suc, ◌+◌, ◌≤◌, ◌<◌, String, ◌≡◌, refl, Bool, true, false, ◌&&◌, List, [], ◌∷◌, ◌++◌, arith,
  ltb, leb, str_eq, eq_iff, eq_refl, length, length-append, All, IsOrdered, find?,
  find?-delete_none, length-delete-lt, any_row, any_row-find?, count_where, delete_where,
  Bool-cases, inl, inr, if◌then◌else◌,
}
use home_assistant_chat_comp.RateLimit.{
  Entry, RateLimiter, is_key, oldest, make_room, drop_old, queue_of, put_queue, admit, allow,
}

-- a call at time `u` lies in the window that ends at `t`
abbrev pub is_live : ℕ → ℕ → ℕ → Bool
is_live window t u = ltb t (u + window)

count_where-append :
    {A : Type 0} (p : A → Bool) (xs ys : List A)
    → count_where p (xs ++ ys) ≡ count_where p xs + count_where p ys
unfolding count_where
count_where-append p [] ys = omega arith
count_where-append p (x ∷ xs) ys = ground (arith, count_where-append p xs ys)

pub count_where-le-length : {A : Type 0} (p : A → Bool) (xs : List A) → count_where p xs ≤ length xs
unfolding count_where
count_where-le-length p [] = omega arith
count_where-le-length p (x ∷ xs) = ground (arith, count_where-le-length p xs)

module _ (limit window : ℕ) where
  drop_old-live :
      (now t : ℕ) (queue : List ℕ)
      → now ≤ t
      → count_where (is_live window t) (drop_old window now queue)
        ≡ count_where (is_live window t) queue
  unfolding drop_old count_where
  drop_old-live now t [] h = refl
  drop_old-live now t (u ∷ queue) h = ground (arith, drop_old-live now t queue)

  length-drop_old-le :
      (now : ℕ) (queue : List ℕ) → length (drop_old window now queue) ≤ length queue
  unfolding drop_old
  length-drop_old-le now [] = omega arith
  length-drop_old-le now (u ∷ queue) = ground (arith, length-drop_old-le now queue)

  count_where-one :
      (t now : ℕ)
      → count_where (is_live window t) (now ∷ []) ≡ (if is_live window t now then 1 else 0)
  unfolding count_where
  count_where-one t now = ground arith

  -- A decision keeps the queue within the limit, and accounts for the calls of the window.
  pub admit-live :
      (now t : ℕ) (queue : List ℕ)
      → now ≤ t
      → length queue ≤ limit
      → let (allowed, queue') = admit limit window now queue in
        (length queue' ≤ limit)
        × (count_where (is_live window t) queue'
            ≡ count_where (is_live window t) queue
              + (if allowed && is_live window t now then 1 else 0))
  unfolding admit
  admit-live now t queue h k = ground (
    arith,
    length-drop_old-le now queue,
    drop_old-live now t queue,
    length-append (drop_old window now queue) (now ∷ []),
    count_where-append (is_live window t) (drop_old window now queue) (now ∷ []),
    count_where-one t now,
  )

  count_where_live :
      (u now : ℕ) (queue : List ℕ)
      → now < u + window
      → All (λ v. u ≤ v) queue
      → count_where (is_live window now) queue ≡ length queue
  unfolding count_where
  count_where_live u now [] h a = refl
  count_where_live u now (v ∷ queue) h a = ground (arith, count_where_live u now queue)

  -- In order, what is dropped is exactly what has left the window.
  drop_old-length :
      (now : ℕ) (queue : List ℕ)
      → IsOrdered ◌≤◌ queue
      → length (drop_old window now queue) ≡ count_where (is_live window now) queue
  unfolding drop_old count_where
  drop_old-length now [] o = refl
  drop_old-length now (u ∷ queue) o = elim (Bool-cases (leb (u + window) now)) [
    | inl gone ↦ ground (arith, drop_old-length now queue o.1)
    | inr live ↦
        let inside : now < u + window = ground arith in
        ground (arith, count_where_live u now queue inside o.0)
  ]

  -- On a queue whose times are in order a call is allowed exactly if fewer than `limit` calls of the
  -- queue are in the window.
  pub admit_decision :
      (now : ℕ) (queue : List ℕ)
      → IsOrdered ◌≤◌ queue
      → (admit limit window now queue).0 ≡ ltb (count_where (is_live window now) queue) limit
  unfolding admit
  admit_decision now queue o = ground (arith, drop_old-length now queue o)

queue_of-make_room :
    (key : String) (r : RateLimiter) → queue_of key (make_room key r) ≡ queue_of key r.entries
unfolding make_room
queue_of-make_room key r = room r.entries
  where
    room :
        (es : List Entry)
        → queue_of key (make_room key (record r { entries = es })) ≡ queue_of key es
    room [] = refl
    room (e ∷ es) = ground (
      arith,
      any_row-find? (is_key key) (e ∷ es),
      find?-delete_none (is_key key) (is_key (oldest e es).key) (e ∷ es),
    )

pub queue_of-put_queue :
    (key other : String) (q : List ℕ) (es : List Entry)
    → queue_of other (put_queue key q es) ≡ (if str_eq key other then q else queue_of other es)
unfolding put_queue find?
queue_of-put_queue key other q [] = ground arith
queue_of-put_queue key other q (e ∷ es) = ground (
  arith,
  eq_iff e.key key,
  eq_iff e.key other,
  eq_iff key other,
  queue_of-put_queue key other q es,
)

-- A call decides by the queue that its own key had, and leaves that key with the queue of the
-- decision, also where it makes room by dropping another key.
pub allow_lem :
    (key : String) (now : ℕ) (r : RateLimiter)
    → let (allowed, r') = allow key now r in
      let (allowed', queue') = admit r.limit r.window now (queue_of key r.entries) in
      (allowed ≡ allowed') × (queue_of key r'.entries ≡ queue')
unfolding allow
allow_lem key now r = rw queue_of-make_room (refl, rw queue_of-put_queue (rw (eq_refl key)))

length-put_queue :
    (key : String) (q : List ℕ) (es : List Entry)
    → length (put_queue key q es) ≡ (if any_row (is_key key) es then length es else suc (length es))
unfolding put_queue any_row
length-put_queue key q [] = refl
length-put_queue key q (e ∷ es) = ground (arith, length-put_queue key q es)

any_nothing : (key : String) → any_row (is_key key) [] ≡ false
unfolding any_row
any_nothing key = refl

oldest-any_row :
    (best : Entry) (es : List Entry) → any_row (is_key (oldest best es).key) (best ∷ es) ≡ true
unfolding oldest any_row
oldest-any_row best [] = ground (arith, eq_refl best.key)
oldest-any_row best (e ∷ es) = ground (arith, oldest-any_row best es, oldest-any_row e es)

-- After room was made the key is there, or there is room for one more.
length-make_room :
    (key : String) (r : RateLimiter) (es : List Entry)
    → 1 ≤ r.max_keys
    → length es ≤ r.max_keys
    → length (put_queue key [] (make_room key (record r { entries = es }))) ≤ r.max_keys
unfolding make_room
length-make_room key r [] pos h = ground (arith, length-put_queue key [] [], any_nothing key)
length-make_room key r (e ∷ es) pos h =
    let spared = delete_where (is_key (oldest e es).key) (e ∷ es) in
    ground (
      arith,
      length-put_queue key [] (e ∷ es),
      length-put_queue key [] spared,
      length-delete-lt (is_key (oldest e es).key) (e ∷ es) (oldest-any_row e es),
    )

-- A limiter with room for one key at least that holds no more than `max_keys` keys holds no more
-- after a call.
pub allow_keys :
    (key : String) (now : ℕ) (r : RateLimiter)
    → 1 ≤ r.max_keys
    → length r.entries ≤ r.max_keys
    → length (allow key now r).1.entries ≤ r.max_keys
unfolding allow
allow_keys key now r pos h =
    let entries = make_room key r in
    omega (
      arith,
      length-put_queue key [] entries,
      length-put_queue key (admit r.limit r.window now (queue_of key entries)).1 entries,
      length-make_room key r r.entries pos h,
    )
