-- ===== src/Tests/Health.antt =====
-- A health check and its probe.
use home_assistant_chat_comp.Prelude.{
  String, none, some, true, false, [], ◌∷◌, ◌≡◌, refl, arith, find?,
}
use home_assistant_chat_comp.RateLimit.{allow, admit, drop_old, make_room}
use home_assistant_chat_comp.Security.{get}
use home_assistant_chat_comp.Wire.{Value, text, valid, loaded}
use home_assistant_chat_comp.Wire.Json.{number, dict}
use home_assistant_chat_comp.Api.Http.{
  Library, HttpRequest, client, finish, fail_if, reply, ◌>>=◌, admit_general,
}
use home_assistant_chat_comp.Api.Dispatch.{
  Response, dispatch, handle, routed, health, body_of, request_id, answer, handler_for,
}
use home_assistant_chat_comp.Health.{
  Url, opened, healthy, is_bad_url, is_remote_plain, probe_health,
}
use home_assistant_chat_comp.Health.Answers.{health_result, probe_health-dispatch}
use home_assistant_chat_comp.Tests.Api.{codec, library, draws, server}

abbrev payload : Value
payload = dict (("status", text "ok") ∷ ("service", text "client") ∷ ("api_version", number 2) ∷ [])

-- a codec that reads the payload of the run
abbrev health_library : Library
health_library = record library { codec = record codec { loads_bytes = λ _. loaded payload } }

abbrev health_request : HttpRequest
health_request = record {
  method = get;
  path = "/healthz";
  client_host = "127.0.0.1";
  header = λ _. none;
  read = λ _. none;
}

abbrev url : Url
url = record {
  scheme = "http";
  hostname = some "127.0.0.1";
  path = "/";
  params = "";
  query = "";
  fragment = "";
}

abbrev base_url : String
base_url = "http://127.0.0.1:8210/"

abbrev shown : Response
shown = record { status = 200; payload = payload; request_id = "drawn" }

is_admitted : (allow "127.0.0.1" 5 server.general_limiter).0 ≡ true
unfolding allow handler_for admit drop_old find? make_room
is_admitted = refl

is_shown :
    (dispatch health_library health_request (draws 1000) "drawn" client server).0 ≡ some shown
unfolding dispatch handle routed health body_of request_id answer finish fail_if reply ◌>>=◌
    admit_general allow handler_for admit drop_old find? make_room
is_shown = refl

url_passes : is_bad_url url ≡ false
unfolding is_bad_url
url_passes = refl

url_local : is_remote_plain url ≡ false
unfolding is_remote_plain
url_local = refl

probe_health-dispatch_example :
    probe_health health_library.codec
      (λ _. valid url)
      (λ _. opened (123 ∷ 125 ∷ []))
      base_url
      "client"
    ≡ healthy
        (health_result health_library health_request (draws 1000) "drawn" client server base_url)
probe_health-dispatch_example =
    probe_health-dispatch health_library health_request (draws 1000) "drawn" client server shown
      (λ _. valid url) (λ _. opened (123 ∷ 125 ∷ [])) base_url url (123 ∷ 125 ∷ []) refl refl refl
      refl is_admitted is_shown refl url_passes url_local refl (omega arith) refl
