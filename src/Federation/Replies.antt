-- ===== src/Federation/Replies.antt =====
-- What a request to a peer returns.
use home_assistant_chat_comp.Prelude.{
  ℕ, ◌≤◌, String, Bool, true, false, not, ◌||◌, ◌==◌, if◌then◌else◌, some, ◌≡◌, ◌≢◌, ◌⊎◌, inl, inr,
  Option-cases, arith, length, take, take-all, ltb, suc, refl, sym, ap, ◌∙◌, length-take-full,
}
use home_assistant_chat_comp.Security.{Crypto}
use home_assistant_chat_comp.Store.Peers.{Peer}
use home_assistant_chat_comp.Wire.{
  Value, object, Fields, Loaded, loaded, decode_error, number_error, load_error, Octets, Codec,
  as_object,
}
use home_assistant_chat_comp.Wire.Envelope.Again.{as_object-some}
use home_assistant_chat_comp.Federation.Request.{
  Posted, Exchange, io_error, response, Network, Answer, answered, delivery_error, endpoint, posted,
  max_response, remote_error, remote_result, read_exchange, signed_json_request,
}

-- which branch a reply that is an object comes from
chosen :
    (b c : Bool) (bad good : Answer) (fs : Fields)
    → bad ≢ answered fs
    → (if b then delivery_error "response_too_large" else if not c then bad else good) ≡ answered fs
    → (b ≡ false) × (c ≡ true) × (good ≡ answered fs)
chosen true c bad good fs n h = absurd (ground arith)
chosen false false bad good fs n h = absurd (n h)
chosen false true bad good fs n h = (refl, refl, h)

at_most : (m n : ℕ) → ltb m n ≡ false → n ≤ m
at_most m n h = ground arith

is_success : (n : ℕ) → (n == 200 || n == 201) ≡ true → (n ≡ 200) ⊎ (n ≡ 201)
is_success n h = ground arith

module _ (codec : Codec) where
  remote_error-answered :
      (status : ℕ) (l : Loaded) (fs : Fields) → remote_error codec status l ≢ answered fs
  unfolding remote_error
  remote_error-answered status (loaded v) fs h = absurd (ground arith)
  remote_error-answered status decode_error fs h = absurd (ground arith)
  remote_error-answered status (number_error e) fs h = absurd (ground arith)
  remote_error-answered status load_error fs h = absurd (ground arith)

  remote_result-answered :
      (l : Loaded) (fs : Fields) → remote_result codec l ≡ answered fs → l ≡ loaded (object fs)
  unfolding remote_result
  remote_result-answered (loaded v) fs h = elim (Option-cases (as_object v)) [
    | inl bad ↦ absurd (ground arith)
    | inr (gs, k) ↦ let e = as_object-some v gs k in ground arith
  ]
  remote_result-answered decode_error fs h = absurd (ground arith)
  remote_result-answered (number_error e) fs h = absurd (ground arith)
  remote_result-answered load_error fs h = absurd (ground arith)

  read_exchange-answered :
      (x : Exchange) (fs : Fields)
      → read_exchange codec x ≡ answered fs
      → (status : ℕ) × (content : Octets) × (x ≡ response status content)
        × ((status ≡ 200) ⊎ (status ≡ 201))
        × (length content ≤ max_response)
        × (codec.loads_bytes content ≡ loaded (object fs))
  unfolding read_exchange
  read_exchange-answered (io_error name) fs h = absurd (ground arith)
  read_exchange-answered (response status content) fs h =
      let body = take (suc max_response) content in
      let no_error = remote_error-answered status (codec.loads_bytes body) fs in
      let result = remote_result-answered (codec.loads_bytes body) fs in
      let (fits, success, good) =
        chosen (ltb max_response (length body)) (status == 200 || status == 201)
          (remote_error codec status (codec.loads_bytes body))
          (remote_result codec (codec.loads_bytes body)) fs no_error h in
      let all = length-take-full max_response content (at_most max_response (length body) fits) in
      let same : body ≡ content = take-all (suc max_response) content (omega arith) in
      let ok = is_success status success in
      let parsed = result good in
      (status, content, refl, ok, all, ap codec.loads_bytes (sym same) ∙ parsed)

module _ (codec : Codec) (crypto : Crypto) (network : Network) (server_id : String) where
  -- A request to a peer returns an object only where it was signed and sent to the peer's endpoint, and
  -- the response has the status 200 or 201, at most 262,144 bytes, and a body that is that object.
  pub signed_json_request-answered :
      (peer : Peer) (path : String) (payload : Value) (now : ℕ) (nonce : String) (fs : Fields)
      → signed_json_request codec crypto network server_id peer path payload now nonce ≡ answered fs
      → (p : Posted) × (status : ℕ) × (content : Octets) × (posted codec crypto network server_id
            peer path payload now nonce
          ≡ some p)
        × (network (endpoint peer) p ≡ response status content)
        × ((status ≡ 200) ⊎ (status ≡ 201))
        × (length content ≤ max_response)
        × (codec.loads_bytes content ≡ loaded (object fs))
  unfolding signed_json_request
  signed_json_request-answered peer path payload now nonce fs h =
      elim (Option-cases (posted codec crypto network server_id peer path payload now nonce)) [
        | inl bad ↦ absurd (ground arith)
        | inr (p, k) ↦
            let (status, content, e, ok, short, parsed) =
              read_exchange-answered codec (network (endpoint peer) p) fs (ground arith) in
            (p, status, content, k, e, ok, short, parsed)
      ]
