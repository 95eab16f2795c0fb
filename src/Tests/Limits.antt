-- ===== src/Tests/Limits.antt =====
-- A limiter with room for two calls and two keys.
use home_assistant_chat_comp.Prelude.{◌+◌, ◌≤◌, ◌≡◌, [], ◌∷◌, arith, length, count_where, ltb}
use home_assistant_chat_comp.RateLimit.{
  RateLimiter, admit, allow, drop_old, make_room, put_queue, queue_of,
}
use home_assistant_chat_comp.RateLimit.Rate.{Asked, Spares, granted, granted_rate}
use home_assistant_chat_comp.Prelude.{List, refl, find?, any_row}
use home_assistant_chat_comp.RateLimit.Window.{is_live, admit_decision, allow_keys}

abbrev limiter : RateLimiter
limiter = record {
  limit = 2;
  window = 60;
  max_keys = 2;
  entries = record { key = "a"; queue = 10 ∷ [] } ∷ record { key = "b"; queue = 20 ∷ [] } ∷ [];
}

-- calls of two keys, four of them of the one of interest
abbrev calls : List Asked
calls =
    record { caller = "a"; time = 20 }
    ∷ record { caller = "b"; time = 25 }
    ∷ record { caller = "a"; time = 30 }
    ∷ record { caller = "a"; time = 40 }
    ∷ []

calls_spare : Spares "a" calls limiter
unfolding Spares allow admit drop_old make_room put_queue find? any_row
calls_spare = (refl, (refl, (refl, (refl, tt))))

granted_rate_example :
    count_where (is_live 60 40) (granted "a" calls limiter)
      + count_where (is_live 60 40) (queue_of "a" limiter.entries)
    ≤ 2
unfolding find?
granted_rate_example =
    granted_rate "a" 40 calls limiter (omega arith)
      (omega arith, (omega arith, (omega arith, (omega arith, tt)))) calls_spare

admit_decision_example :
    (admit 2 60 75 (10 ∷ 20 ∷ [])).0 ≡ ltb (count_where (is_live 60 75) (10 ∷ 20 ∷ [])) 2
admit_decision_example = admit_decision 2 60 75 (10 ∷ 20 ∷ []) ((omega arith, tt), (tt, tt))

allow_keys_example : length (allow "c" 30 limiter).1.entries ≤ 2
allow_keys_example = allow_keys "c" 30 limiter (omega arith) (omega arith)
