-- ===== src/Api/Calls/Rules.antt =====
-- The parts of which handlers are made use the store through its calls alone.
use mathlib.Core.Path.{subst}
use home_assistant_chat_comp.Prelude.{
  ℕ, String, Bool, true, false, Option, none, some, List, ◌≡◌, sym, if◌then◌else◌,
}
use home_assistant_chat_comp.Schema.{Db}
use home_assistant_chat_comp.Exec.{Method, Result, ok, err}
use home_assistant_chat_comp.Exec.Messages.{message_of}
use home_assistant_chat_comp.Wire.{
  Value, Checked, valid, value_error, other_error, Loaded, loaded, decode_error, number_error,
  load_error, Octets, Codec,
}
use home_assistant_chat_comp.Security.{Crypto}
use home_assistant_chat_comp.Api.Http.{
  Library, Server, Outcome, done, api_error, crashed, disconnected, Handler, finish, fail, crash,
  disconnect, fail_if, require, call, uncaught, ◌>>=◌, admit_general, admit_login, reply, checked,
  loads, fail_with, caught, parsed, parse_json, json_object, arrived, HttpRequest, read_body,
  resume,
}
use home_assistant_chat_comp.Api.Calls.{Call, Runs, here, next, Runs-trans, Keeps}

module _ (lib : Library) (Seen : ℕ → Type 0) (Drawn : String → Type 0) where
  resume-Runs :
      {A B : Type 0} (db : Db) (r : Outcome A × Server) (f : A → Handler B)
      → Runs lib Seen Drawn db r.1.db
      → ((a : A) → Keeps lib Seen Drawn (f a))
      → Runs lib Seen Drawn db (resume r f).1.db
  resume-Runs db (done a, s) f r k = Runs-trans lib Seen Drawn r ((k a).run s)
  resume-Runs db (api_error status code message, s) f r k = r
  resume-Runs db (crashed, s) f r k = r
  resume-Runs db (disconnected, s) f r k = r

  pub bind-Keeps :
      {A B : Type 0} (m : Handler A) (f : A → Handler B)
      → Keeps lib Seen Drawn m
      → ((a : A) → Keeps lib Seen Drawn (f a))
      → Keeps lib Seen Drawn (m >>= f)
  unfolding ◌>>=◌
  bind-Keeps m f k l = record { run = λ s. resume-Runs s.db (m s) f (k.run s) l }

  module _ {A : Type 0} where
    pub finish-Keeps : (a : A) → Keeps lib Seen Drawn (finish a)
    unfolding finish
    finish-Keeps a = record { run = λ s. here }

    pub fail-Keeps :
        (status : ℕ) (code message : String)
        → Keeps lib Seen Drawn (fail {A = A} status code message)
    unfolding fail
    fail-Keeps status code message = record { run = λ s. here }

    pub crash-Keeps : Keeps lib Seen Drawn (crash {A = A})
    unfolding crash
    crash-Keeps = record { run = λ s. here }

    pub if-Keeps :
        (b : Bool) (m n : Handler A)
        → Keeps lib Seen Drawn m
        → Keeps lib Seen Drawn n
        → Keeps lib Seen Drawn (if b then m else n)
    if-Keeps true m n k l = k
    if-Keeps false m n k l = l

    pub require-Keeps :
        (o : Option A) (status : ℕ) (code message : String)
        → Keeps lib Seen Drawn (require o status code message)
    unfolding require finish fail
    require-Keeps none status code message = record { run = λ s. here }
    require-Keeps (some a) status code message = record { run = λ s. here }

    pub uncaught-Keeps : (r : Result A) → Keeps lib Seen Drawn (uncaught r)
    unfolding uncaught finish crash
    uncaught-Keeps (ok a) = record { run = λ s. here }
    uncaught-Keeps (err e) = record { run = λ s. here }

    pub checked-Keeps :
        (status : String → ℕ) (message : String) (c : Checked A)
        → Keeps lib Seen Drawn (checked status message c)
    unfolding checked finish fail crash
    checked-Keeps status message (valid a) = record { run = λ s. here }
    checked-Keeps status message (value_error e) = record { run = λ s. here }
    checked-Keeps status message other_error = record { run = λ s. here }

    fail_with-Keeps :
        (status : String → ℕ) (message : String) (e : Option String)
        → Keeps lib Seen Drawn (fail_with {A = A} status message e)
    unfolding fail_with fail crash
    fail_with-Keeps status message none = record { run = λ s. here }
    fail_with-Keeps status message (some e) = record { run = λ s. here }

    pub caught-Keeps :
        (status : String → ℕ) (message : String) (r : Result A)
        → Keeps lib Seen Drawn (caught status message r)
    unfolding caught
    caught-Keeps status message (ok a) = finish-Keeps a
    caught-Keeps status message (err e) = fail_with-Keeps status message (message_of e)

    -- a call that writes
    pub call-Keeps :
        (m : Method A)
        → ((db : Db) → Call lib Seen Drawn db (m db).1)
        → Keeps lib Seen Drawn (call m)
    unfolding call
    call-Keeps m c = record { run = λ s. next here (c s.db) }

    -- a call that reads
    pub read-Keeps : (m : Method A) → ((db : Db) → (m db).1 ≡ db) → Keeps lib Seen Drawn (call m)
    unfolding call
    read-Keeps m e = record { run = λ s. subst (Runs lib Seen Drawn s.db) (sym (e s.db)) here }

  pub fail_if-Keeps :
      (c : Bool) (status : ℕ) (code message : String)
      → Keeps lib Seen Drawn (fail_if c status code message)
  unfolding fail_if
  fail_if-Keeps c status code message = record { run = λ s. here }

  pub reply-Keeps : (status : ℕ) (payload : Value) → Keeps lib Seen Drawn (reply status payload)
  unfolding reply
  reply-Keeps status payload = finish-Keeps _

  pub admit_general-Keeps : (key : String) (now : ℕ) → Keeps lib Seen Drawn (admit_general key now)
  unfolding admit_general
  admit_general-Keeps key now = record { run = λ s. here }

  pub admit_login-Keeps : (key : String) (now : ℕ) → Keeps lib Seen Drawn (admit_login key now)
  unfolding admit_login
  admit_login-Keeps key now = record { run = λ s. here }

  pub loads-Keeps :
      (status : String → ℕ) (message : String) (l : Loaded)
      → Keeps lib Seen Drawn (loads status message l)
  unfolding loads finish fail crash
  loads-Keeps status message (loaded v) = record { run = λ s. here }
  loads-Keeps status message decode_error = record { run = λ s. here }
  loads-Keeps status message (number_error e) = record { run = λ s. here }
  loads-Keeps status message load_error = record { run = λ s. here }

  parsed-Keeps : (l : Loaded) → Keeps lib Seen Drawn (parsed l)
  unfolding parsed finish fail crash
  parsed-Keeps (loaded v) = record { run = λ s. here }
  parsed-Keeps decode_error = record { run = λ s. here }
  parsed-Keeps (number_error e) = record { run = λ s. here }
  parsed-Keeps load_error = record { run = λ s. here }

  pub parse_json-Keeps :
      (codec : Codec) (body : Octets) → Keeps lib Seen Drawn (parse_json codec body)
  unfolding parse_json
  parse_json-Keeps codec body = parsed-Keeps (codec.loads_bytes body)

  pub json_object-Keeps :
      (codec : Codec) (body : Octets) (keys : List String)
      → Keeps lib Seen Drawn (json_object codec body keys)
  unfolding json_object
  json_object-Keeps codec body keys = bind-Keeps _ _ (parse_json-Keeps codec body) λ payload.
      bind-Keeps _ _ (require-Keeps _ _ _ _) λ fs.
        bind-Keeps _ _ (fail_if-Keeps _ _ _ _)
          λ _. bind-Keeps _ _ (fail_if-Keeps _ _ _ _) λ _. finish-Keeps _

  arrived-Keeps : (body : Option Octets) → Keeps lib Seen Drawn (arrived body)
  unfolding arrived finish disconnect
  arrived-Keeps none = record { run = λ s. here }
  arrived-Keeps (some body) = record { run = λ s. here }

  pub read_body-Keeps :
      (crypto : Crypto) (req : HttpRequest) → Keeps lib Seen Drawn (read_body crypto req)
  unfolding read_body
  read_body-Keeps crypto req =
      search (bind-Keeps, fail_if-Keeps, require-Keeps, arrived-Keeps, finish-Keeps) depth 12

-- the rules for the parts of a handler
pub ruleset parts = (
  bind-Keeps, if-Keeps, finish-Keeps, fail-Keeps, crash-Keeps, fail_if-Keeps, require-Keeps,
  uncaught-Keeps, checked-Keeps, caught-Keeps, reply-Keeps, loads-Keeps, parse_json-Keeps,
  json_object-Keeps, admit_general-Keeps, admit_login-Keeps, read_body-Keeps, call-Keeps,
  read-Keeps,
)
