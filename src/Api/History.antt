-- ===== src/Api/History.antt =====
-- The histories of a server: requests to both planes, and calls of the store by the dispatcher or by
-- other threads, in any order; and what no history changes.
pub mod Quota
pub mod Replay
pub mod Logout
pub mod Counters
use mathlib.Core.Path.{subst}
use home_assistant_chat_comp.Prelude.{ℕ, String, ◌≡◌}
use home_assistant_chat_comp.Schema.{Db}
use home_assistant_chat_comp.Api.Http.{Library, HttpRequest, Draws, Plane, Server}
use home_assistant_chat_comp.Api.Dispatch.{dispatch}
use home_assistant_chat_comp.Api.Calls.{Call, Runs, here, next, Runs-trans}
use home_assistant_chat_comp.Api.Calls.Planes.{dispatch-Runs}

-- What happens to the database of a server: a request to one of the planes is handled whole, or the
-- dispatcher or another thread makes a call of the store.
pub data Happens (lib : Library) (Seen : ℕ → Type 0) (Drawn : String → Type 0) (db : Db)
    : Db → Type 0 where
  request :
      (req : HttpRequest) (draws : Draws) (id : String) (plane : Plane) (s : Server)
      → s.db ≡ db
      → Seen (draws.clock 1)
      → Drawn draws.token
      → Happens lib Seen Drawn db (dispatch lib req draws id plane s).1.db
  other : {db' : Db} → Call lib Seen Drawn db db' → Happens lib Seen Drawn db db'

-- any history of such events
pub data History (lib : Library) (Seen : ℕ → Type 0) (Drawn : String → Type 0) (db : Db)
    : Db → Type 0 where
  start : History lib Seen Drawn db db
  after :
      {db' db'' : Db}
      → History lib Seen Drawn db db'
      → Happens lib Seen Drawn db' db''
      → History lib Seen Drawn db db''

module _ (lib : Library) (Seen : ℕ → Type 0) (Drawn : String → Type 0) where
  pub History-Runs : {db db' : Db} → History lib Seen Drawn db db' → Runs lib Seen Drawn db db'
  History-Runs start = here
  History-Runs (after h (request req draws id plane s e t d)) =
      Runs-trans lib Seen Drawn (History-Runs h) (
        subst (λ db. Runs lib Seen Drawn db (dispatch lib req draws id plane s).1.db) e
          (dispatch-Runs lib Seen Drawn req draws id plane s t d))
  History-Runs (after h (other c)) = next (History-Runs h) c
