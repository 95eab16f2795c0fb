-- ===== src/Health/Answers.antt =====
-- The health check of a server passes its probe.
use Prim.Native.String.{◌++◌}
use home_assistant_chat_comp.Prelude.{
  suc, ◌≤◌, String, true, false, Option, none, some, ◌≡◌, refl, sym, ap, ◌∙◌, arith, ltb, length,
  take, take-all, [], ◌∷◌, str_eq, eq_refl, if◌then◌else◌,
}
use home_assistant_chat_comp.Protocol.{api_version}
use home_assistant_chat_comp.RateLimit.{allow}
use home_assistant_chat_comp.Security.{get}
use home_assistant_chat_comp.Wire.{Value, text, Checked, valid, Octets, loaded, value_of}
use home_assistant_chat_comp.Wire.Json.{number, dict}
use home_assistant_chat_comp.Api.Http.{
  Library, HttpRequest, Draws, Plane, client, federation, Server, finish, fail_if, reply, ◌>>=◌,
  admit_general,
}
use home_assistant_chat_comp.Api.Dispatch.{
  plane_name, health, body_of, routed, handle, Response, request_id, answer, dispatch,
}
use home_assistant_chat_comp.Health.{
  Url, Opened, opened, HealthResult, healthy, invalid, rstrip_slash, is_service, is_bad_url,
  is_remote_plain, check_response, check_opened, probe_url, probe_health,
}

at_most : (content : Octets) → length content ≤ 4_096 → ltb 4_096 (length content) ≡ false
at_most content short = ground arith

module _ (lib : Library) (req : HttpRequest) (draws : Draws) (id : String) (plane : Plane)
    (s : Server) where
  abbrev health_payload : Value
  health_payload = dict (
      ("status", text "ok")
      ∷ ("service", text (plane_name lib req draws plane))
      ∷ ("api_version", number api_version)
      ∷ [])

  -- what the probe returns
  abbrev pub health_result : String → HealthResult
  health_result base_url = record {
    url = rstrip_slash base_url;
    service = plane_name lib req draws plane;
    api_version = number api_version;
  }

  is_service-plane : is_service (plane_name lib req draws plane) ≡ true
  is_service-plane = elim plane as (λ k. is_service (plane_name lib req draws k) ≡ true) [
    | client ↦ refl
    | federation ↦ refl
  ]

  check_response-health :
      (base_url : String)
      → check_response base_url (plane_name lib req draws plane) (loaded health_payload)
        ≡ healthy (health_result base_url)
  unfolding check_response value_of
  check_response-health base_url =
      let same = eq_refl (plane_name lib req draws plane) in ground arith

  check_opened-health :
      (base_url : String) (content : Octets) (urlparse : String → Checked Url)
      (urlopen : String → Opened)
      → length content ≤ 4_096
      → lib.codec.loads_bytes content ≡ loaded health_payload
      → check_opened lib.codec urlparse urlopen base_url
          (plane_name lib req draws plane)
          (opened content)
        ≡ healthy (health_result base_url)
  unfolding check_opened
  check_opened-health base_url content urlparse urlopen short body =
      let whole = take-all (suc 4_096) content (omega arith) in
      let fits : ltb 4_096 (length (take (suc 4_096) content)) ≡ false =
        ap (λ x. ltb 4_096 (length x)) whole ∙ at_most content short in
      let parsed = ap lib.codec.loads_bytes whole ∙ body in
      let result =
        ap (check_response base_url (plane_name lib req draws plane)) parsed
        ∙ check_response-health base_url in
      ap
        (λ b.
          if b
          then invalid "health_response_too_large"
          else check_response base_url (plane_name lib req draws plane)
              (lib.codec.loads_bytes (take (suc 4_096) content)))
        fits
      ∙ result

  -- the reply to the health check, of a client that the limiter admits
  dispatch-health :
      req.method ≡ get
      → req.path ≡ "/healthz"
      → req.header "Transfer-Encoding" ≡ none
      → req.header "Content-Length" ≡ none
      → (allow req.client_host draws.ticks s.general_limiter).0 ≡ true
      → (r : Response) × ((dispatch lib req draws id plane s).0 ≡ some r)
        × (r.status ≡ 200)
        × (r.payload ≡ health_payload)
  unfolding dispatch handle routed health body_of answer finish fail_if reply ◌>>=◌ admit_general
  dispatch-health m p t c a =
      let here : str_eq req.path "/healthz" ≡ true = ap (λ x. str_eq x "/healthz") p in
      (
        record { status = 200; payload = health_payload; request_id = request_id req id },
        ground arith,
        refl,
        refl,
      )

  -- A client that the limiter admits, and whose probe of a well-formed address asks a plane for its
  -- health as a GET without a body, finds the plane healthy: whatever reply the plane gives to the
  -- request, if its payload is what the probe reads, in at most 4,096 bytes, the result has the
  -- address, the plane and the version of the interface.
  pub probe_health-dispatch :
      (r : Response) (urlparse : String → Checked Url) (urlopen : String → Opened)
      (base_url : String) (u : Url) (content : Octets)
      → req.method ≡ get
      → req.path ≡ "/healthz"
      → req.header "Transfer-Encoding" ≡ none
      → req.header "Content-Length" ≡ none
      → (allow req.client_host draws.ticks s.general_limiter).0 ≡ true
      → (dispatch lib req draws id plane s).0 ≡ some r
      → urlparse base_url ≡ valid u
      → is_bad_url u ≡ false
      → is_remote_plain u ≡ false
      → urlopen (rstrip_slash base_url ++ "/healthz") ≡ opened content
      → length content ≤ 4_096
      → lib.codec.loads_bytes content ≡ loaded r.payload
      → probe_health lib.codec urlparse urlopen base_url (plane_name lib req draws plane)
        ≡ healthy (health_result base_url)
  unfolding probe_health probe_url
  probe_health-dispatch r urlparse urlopen base_url u content m p t c a answered parsed good secure
        read short body =
      let (q, e, ok, payload) = dispatch-health m p t c a in
      let same : r.payload ≡ health_payload =
        ap (λ (o : Option Response). elim o [ none ↦ r.payload | some x ↦ x.payload ])
          (sym answered ∙ e)
        ∙ payload in
      let opens =
        check_opened-health base_url content urlparse urlopen short (body ∙ ap loaded same) in
      let service = is_service-plane in
      let result : check_opened lib.codec urlparse urlopen base_url (plane_name lib req draws plane)
            (urlopen (rstrip_slash base_url ++ "/healthz"))
          ≡ healthy (health_result base_url) =
        ap (check_opened lib.codec urlparse urlopen base_url (plane_name lib req draws plane)) read
        ∙ opens in
      ground arith
