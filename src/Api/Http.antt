-- ===== src/Api/Http.antt =====
-- api.py: the requests of both planes, the answers to them, and what every handler does with the body
-- and the headers. A request is handled on one state of the server; the clock, the random draws and
-- the bytes that arrive are given with it.
use Prim.Native.String.{◌++◌}
use home_assistant_chat_comp.Prelude.{
  ℕ, String, Bool, true, false, ◌||◌, not, Option, none, some, List, pos_part, ◌==◌, str_eq, length,
  if◌then◌else◌,
}
use home_assistant_chat_comp.Text.{strip}
use home_assistant_chat_comp.Text.Parts.{before_char, lowers_to}
use home_assistant_chat_comp.Protocol.{
  max_json_body, client_protocol, federation_protocol, protocol_header,
}
use home_assistant_chat_comp.Address.{IpAddress}
use home_assistant_chat_comp.Schema.{Db}
use home_assistant_chat_comp.Schema.Event.{Json}
use home_assistant_chat_comp.Exec.{Method, Result, ok, err}
use home_assistant_chat_comp.Exec.Messages.{message_of}
use home_assistant_chat_comp.Security.{Crypto, HttpMethod}
use home_assistant_chat_comp.Security.Passwords.{Kdf}
use home_assistant_chat_comp.RateLimit.{RateLimiter, allow}
use home_assistant_chat_comp.Federation.Request.{Network}
use home_assistant_chat_comp.Wire.{
  Value, text, Fields, no_fields, field, as_object, keys_within, has_keys, int_between, Checked,
  valid, value_error, other_error, Loaded, loaded, decode_error, number_error, load_error, Octets,
  Codec,
}

-- what the server takes from the libraries
pub record Library : Type 0 where
  pub json : Json
  pub codec : Codec
  pub crypto : Crypto
  pub kdf : Kdf
  pub token_digest : String → String
  pub ip_address : String → Option IpAddress
  pub network : Network

-- A request: `header` gives the content of a header that is there, and `read` what arrives of a body of
-- that length, or nothing where the connection breaks.
pub record HttpRequest : Type 0 where
  pub method : HttpMethod
  pub path : String
  pub client_host : String
  pub header : String → Option String
  pub read : ℕ → Option Octets

-- What a request draws and reads: its readings of the clock, in their order, of the monotonic clock of
-- the limiters, a session token, the text of a UUID for an event and for two receipts, a nonce.
pub record Draws : Type 0 where
  pub clock : ℕ → ℕ
  pub ticks : ℕ
  pub token : String
  pub event_hex : String
  pub first_receipt : String
  pub second_receipt : String
  pub nonce : String

pub data Plane : Type 0 where
  client federation : Plane

-- a plane's handler with what it keeps from one request to the next
pub record Server : Type 0 where
  pub db : Db
  pub general_limiter : RateLimiter
  pub login_limiter : RateLimiter

-- A handler returns, raises an `ApiError` (status, code, message) or another exception, or loses the
-- connection (`ConnectionError`, `TimeoutError`).
pub data Outcome (A : Type 0) : Type 0 where
  done : A → Outcome A
  api_error : ℕ → String → String → Outcome A
  crashed : Outcome A
  disconnected : Outcome A

abbrev pub Handler : Type 0 → Type 0
Handler A = Server → Outcome A × Server

module _ {A : Type 0} where
  unfoldable pub finish : A → Handler A
  finish a s = (done a, s)

  unfoldable pub fail : ℕ → String → String → Handler A
  fail status code message s = (api_error status code message, s)

  unfoldable pub crash : Handler A
  crash s = (crashed, s)

  unfoldable pub disconnect : Handler A
  disconnect s = (disconnected, s)

unfoldable pub fail_if : Bool → ℕ → String → String → Handler (Unit {0})
fail_if c status code message s = (if c then api_error status code message else done tt, s)

-- `if value is None: raise ApiError(...)`, and the same for a value of another type
unfoldable pub require : {A : Type 0} → Option A → ℕ → String → String → Handler A
require none status code message = fail status code message
require (some a) status code message = finish a

-- a call of the store, whose exception the handler sees
unfoldable pub call : {A : Type 0} → Method A → Handler (Result A)
call m s = let (r, db) = m s.db in (done r, record s { db = db })

-- a call of the store, whose exceptions the handler does not catch
unfoldable pub uncaught : {A : Type 0} → Result A → Handler A
uncaught (ok a) = finish a
uncaught (err e) = crash

abbrev pub resume : {A B : Type 0} → Outcome A × Server → (A → Handler B) → Outcome B × Server
resume (done a, s) f = f a s
resume (api_error status code message, s) f = (api_error status code message, s)
resume (crashed, s) f = (crashed, s)
resume (disconnected, s) f = (disconnected, s)

infixl 5 ◌>>=◌ ◌>>◌
unfoldable pub ◌>>=◌ : {A B : Type 0} → Handler A → (A → Handler B) → Handler B
◌>>=◌ m f s = resume (m s) f

abbrev pub ◌>>◌ : {B : Type 0} → Handler (Unit {0}) → Handler B → Handler B
m >> k = m >>= λ _. k

-- `allow` of a limiter
unfoldable pub admit_general : String → ℕ → Handler Bool
admit_general key now s =
    let (allowed, limiter) = allow key now s.general_limiter in
    (done allowed, record s { general_limiter = limiter })

unfoldable pub admit_login : String → ℕ → Handler Bool
admit_login key now s =
    let (allowed, limiter) = allow key now s.login_limiter in
    (done allowed, record s { login_limiter = limiter })

-- a status with the object of the body
pub record Reply : Type 0 where
  pub status : ℕ
  pub payload : Value

unfoldable pub reply : ℕ → Value → Handler Reply
reply status payload = finish (record { status = status; payload = payload })

-- `self.headers.get(name, "")`
abbrev pub header_or_empty : HttpRequest → String → String
header_or_empty req name = elim (req.header name) [ none ↦ "" | some s ↦ s ]

-- `except ValueError as error: raise ApiError(status, str(error), message)`, around a check
unfoldable pub checked : {A : Type 0} → (String → ℕ) → String → Checked A → Handler A
checked status message (valid a) = finish a
checked status message (value_error e) = fail (status e) e message
checked status message other_error = crash

-- the same around the parsing of the body, whose `ApiError` passes through
unfoldable pub loads : (String → ℕ) → String → Loaded → Handler Value
loads status message (loaded v) = finish v
loads status message decode_error = fail 400 "invalid_json" "Request body must be valid JSON"
loads status message (number_error e) = fail (status e) e message
loads status message load_error = crash

unfoldable pub fail_with : {A : Type 0} → (String → ℕ) → String → Option String → Handler A
fail_with status message none = crash
fail_with status message (some e) = fail (status e) e message

-- the same around a call of the store
unfoldable pub caught : {A : Type 0} → (String → ℕ) → String → Result A → Handler A
caught status message (ok a) = finish a
caught status message (err e) = fail_with status message (message_of e)

-- what `_parse_json` makes of the result, where a `ValueError` is not caught
unfoldable pub parsed : Loaded → Handler Value
parsed (loaded v) = finish v
parsed decode_error = fail 400 "invalid_json" "Request body must be valid JSON"
parsed (number_error _) = crash
parsed load_error = crash

-- `_parse_json`
unfoldable pub parse_json : Codec → Octets → Handler Value
parse_json codec body = parsed (codec.loads_bytes body)

-- whether every value is a text
unfoldable pub all_texts : Fields → Bool
all_texts no_fields = true
all_texts (field k (text v) fs) = all_texts fs
all_texts (field k v fs) = false

-- `_json_object`, where the allowed keys are the required ones
unfoldable pub json_object : Codec → Octets → List String → Handler Fields
json_object codec body keys = do
  payload ← parse_json codec body
  fs ← require (as_object payload) 400 "invalid_request" "Request fields are invalid"
  fail_if (not (keys_within keys fs) || not (has_keys keys fs)) 400 "invalid_request"
      "Request fields are invalid"
  fail_if (not (all_texts fs)) 400 "invalid_request" "Request fields are invalid"
  finish fs

abbrev pub expected_protocol : Plane → String
expected_protocol client = client_protocol
expected_protocol federation = federation_protocol

-- `_require_protocol`
unfoldable pub require_protocol : Plane → HttpRequest → Handler (Unit {0})
require_protocol plane req =
    fail_if
      (not (elim (req.header protocol_header) [
        | none ↦ false
        | some p ↦ str_eq p (expected_protocol plane)
      ]))
      426 "unsupported_protocol" ("Required protocol: " ++ expected_protocol plane)

-- `split(";", 1)[0].strip().lower() == "application/json"`
unfoldable pub is_json_type : String → Bool
is_json_type s = lowers_to (strip (before_char b';' s)) "application/json"

-- what arrives of the body, unless the connection breaks
unfoldable pub arrived : Option Octets → Handler Octets
arrived none = disconnect
arrived (some body) = finish body

-- `_read_body`; the parser of integers is that of the signatures
unfoldable pub read_body : Crypto → HttpRequest → Handler Octets
read_body crypto req = do
  fail_if (not (is_json_type (header_or_empty req "Content-Type"))) 415 "unsupported_media_type"
      "Content-Type must be application/json"
  n ←
      require (crypto.int (header_or_empty req "Content-Length")) 411 "content_length_required"
        "Valid Content-Length required"
  fail_if (not (int_between 1 max_json_body n)) 413 "request_too_large"
      "Request body is outside allowed bounds"
  body ← arrived (req.read (pos_part n))
  fail_if (not (length body == pos_part n)) 400 "incomplete_body" "Incomplete request body"
  finish body
