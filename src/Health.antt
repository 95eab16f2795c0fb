-- ===== src/Health.antt =====
-- health.py: `probe_health`. The parser of URLs and the request are parameters.
pub mod Answers
use Prim.Native.Char.{code}
use Prim.Native.String.{[], ◌∷◌, ◌++◌}
use home_assistant_chat_comp.Prelude.{
  ℕ, suc, String, Bool, true, false, ◌&&◌, ◌||◌, not, Option, none, some, ltb, ◌==◌, str_eq, take,
  length, if◌then◌else◌,
}
use home_assistant_chat_comp.Wire.{
  Value, boolean, integer, Fields, as_object, is_text, value_of, Checked, valid, value_error,
  other_error, Loaded, loaded, decode_error, number_error, load_error, Octets, Codec,
}

-- what `urlparse` gives
pub record Url : Type 0 where
  pub scheme : String
  pub hostname : Option String
  pub path : String
  pub params : String
  pub query : String
  pub fragment : String

-- what `urlopen` and the reading of the response give: bytes, a `URLError` or `TimeoutError`, or
-- another exception
pub data Opened : Type 0 where
  opened : Octets → Opened
  open_error : Opened
  open_raised : Opened

pub record HealthResult : Type 0 where
  pub url : String
  pub service : String
  pub api_version : Value

-- what a probe returns or raises: a `ValueError`, a `ConnectionError`, or another exception
pub data Probe : Type 0 where
  healthy : HealthResult → Probe
  invalid unreachable : String → Probe
  raised : Probe

-- `rstrip("/")`
unfoldable pub rstrip_slash : String → String
rstrip_slash [] = []
rstrip_slash (c ∷ s) =
    let rest = rstrip_slash s in if str_eq rest "" && code c == b'/' then [] else c ∷ rest

abbrev pub host_of : Option String → String
host_of none = ""
host_of (some host) = host

-- the condition of `invalid_health_url`
unfoldable pub is_bad_url : Url → Bool
is_bad_url u =
    not (str_eq u.scheme "http" || str_eq u.scheme "https")
    || str_eq (host_of u.hostname) ""
    || not (str_eq u.path "" || str_eq u.path "/")
    || not (str_eq u.params "")
    || not (str_eq u.query "")
    || not (str_eq u.fragment "")

-- plain HTTP to another host
unfoldable pub is_remote_plain : Url → Bool
is_remote_plain u =
    str_eq u.scheme "http"
    && not (str_eq (host_of u.hostname) "127.0.0.1" || str_eq (host_of u.hostname) "localhost")

-- `isinstance(value, int)`, which a `bool` is
abbrev pub is_int : Value → Bool
is_int (integer n) = true
is_int (boolean b) = true
is_int _ = false

abbrev pub is_service : String → Bool
is_service s = str_eq s "client" || str_eq s "federation"

-- the checks of the payload
unfoldable pub check_payload : String → String → Fields → Probe
check_payload base_url expected_service fs =
    if not (is_text "ok" (value_of "status" fs))
      || not (is_text expected_service (value_of "service" fs))
      || not (is_int (value_of "api_version" fs))
    then invalid "unexpected_health_response"
    else healthy (record {
      url = rstrip_slash base_url;
      service = expected_service;
      api_version = value_of "api_version" fs;
    })

-- the parsed response
unfoldable pub check_response : String → String → Loaded → Probe
unfolding check_payload
check_response base_url expected_service (loaded v) = elim (as_object v) [
  | none ↦ invalid "unexpected_health_response"
  | some fs ↦ check_payload base_url expected_service fs
]
check_response base_url expected_service decode_error = invalid "invalid_health_response"
check_response base_url expected_service (number_error e) = invalid e
check_response base_url expected_service load_error = raised

module _ (codec : Codec) (urlparse : String → Checked Url) (urlopen : String → Opened) where
  -- what is read of the response, at most 4,097 bytes
  unfoldable pub check_opened : String → String → Opened → Probe
  unfolding check_response
  check_opened base_url expected_service open_error =
      unreachable ("health_check_failed:" ++ expected_service)
  check_opened base_url expected_service open_raised = raised
  check_opened base_url expected_service (opened content) =
      let raw = take (suc 4_096) content in
      if ltb 4_096 (length raw)
      then invalid "health_response_too_large"
      else check_response base_url expected_service (codec.loads_bytes raw)

  -- the checks of the arguments, and the request
  unfoldable pub probe_url : String → String → Url → Probe
  unfolding check_opened is_bad_url is_remote_plain
  probe_url base_url expected_service u =
      if is_bad_url u
      then invalid "invalid_health_url"
      else if is_remote_plain u
      then invalid "https_required_for_remote_health_check"
      else if not (is_service expected_service)
      then invalid "invalid_expected_service"
      else check_opened base_url expected_service (urlopen (rstrip_slash base_url ++ "/healthz"))

  unfoldable pub probe_health : String → String → Probe
  unfolding probe_url
  probe_health base_url expected_service = elim (urlparse base_url) [
    | valid u ↦ probe_url base_url expected_service u
    | value_error e ↦ invalid e
    | other_error ↦ raised
  ]
