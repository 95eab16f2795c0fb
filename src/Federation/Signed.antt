-- ===== src/Federation/Signed.antt =====
-- A signed request, from the server that sends it to the one that gets it.
use mathlib.Core.Path.{subst}
use home_assistant_chat_comp.Prelude.{
  ℕ, pos, ◌≤◌, String, true, Option, none, some, List, [], ◌∷◌, ◌≡◌, ap, sym, ◌∙◌, refl, str_eq,
  eq_refl, length, take, take-all, arith, if◌then◌else◌, Option-cases, inl, inr,
}
use home_assistant_chat_comp.Text.{is_ascii, strip}
use home_assistant_chat_comp.Text.Parts.{decimal, lowers_to, before_char}
use home_assistant_chat_comp.Protocol.{max_json_body}
use home_assistant_chat_comp.Schema.{Db}
use home_assistant_chat_comp.Exec.{ok}
use home_assistant_chat_comp.Security.{
  Bytes, post, is_nonce_text, decode_b64url, canonical_federation_request, sign_federation_request,
}
use home_assistant_chat_comp.Security.Fresh.{IsFresh, verify_complete}
use home_assistant_chat_comp.Store.Peers.{Peer, get_peer}
use home_assistant_chat_comp.Store.Nonces.{record_federation_nonce}
use home_assistant_chat_comp.Wire.{Value}
use home_assistant_chat_comp.Federation.Request.{Header, Posted, posted, signed_headers}
use home_assistant_chat_comp.Api.{federation_peer, use_nonce}
use home_assistant_chat_comp.Api.Http.{
  Library, HttpRequest, Draws, Server, done, finish, ◌>>=◌, fail_if, require, arrived, is_json_type,
  read_body,
}
use home_assistant_chat_comp.Api.Peers.{signed_request, peer_of, admitted}

-- the content of the first header of that name
unfoldable pub header_content : String → List Header → Option String
header_content name [] = none
header_content name (h ∷ hs) = if str_eq h.name name then some h.content else header_content name hs

-- the request at the other end of a connection that changes nothing of it
unfoldable pub received : Posted → String → HttpRequest
received p host = record {
  method = post;
  path = p.path;
  client_host = host;
  header = λ name. header_content name p.headers;
  read = λ n. some (take n p.body);
}

json_type : is_json_type "application/json" ≡ true
unfolding is_json_type strip lowers_to before_char
json_type = refl

module _ (lib : Library) (server_id : String) (peer : Peer) (path : String) (payload : Value)
    (sent_at : ℕ) (nonce : String) where
  -- the request that the signature makes
  signed_as : String → Posted
  signed_as signature = record {
    path = path;
    headers =
        signed_headers server_id (lib.codec.dumps_bytes payload) (decimal sent_at) nonce signature;
    body = lib.codec.dumps_bytes payload;
  }

  posted-cases :
      (p : Posted)
      → posted lib.codec lib.crypto lib.network server_id peer path payload sent_at nonce ≡ some p
      → (signature : String) × (sign_federation_request lib.crypto peer.shared_secret post path
            (decimal sent_at)
            nonce
            (lib.codec.dumps_bytes payload)
          ≡ some signature)
        × (p ≡ signed_as signature)
  unfolding posted signed_as
  posted-cases p h =
      elim (Option-cases (
        sign_federation_request lib.crypto peer.shared_secret post path (decimal sent_at) nonce
          (lib.codec.dumps_bytes payload))) [
            | inl bad ↦ absurd (ground arith)
            | inr (s, k) ↦ (s, k, ground arith)
          ]

  -- the signature is one of the library's
  sign-is_ascii :
      ((key : Bytes) (m : String) → is_ascii (lib.crypto.hmac_sha256 key m) ≡ true)
      → (timestamp signature : String)
      → sign_federation_request lib.crypto peer.shared_secret post path timestamp nonce
          (lib.codec.dumps_bytes payload)
        ≡ some signature
      → is_ascii signature ≡ true
  unfolding sign_federation_request
  sign-is_ascii ascii timestamp signature h =
      elim (Option-cases (decode_b64url lib.crypto peer.shared_secret)) [
        | inl bad ↦ absurd (ground arith)
        | inr (key, k) ↦
            elim (Option-cases (
              canonical_federation_request lib.crypto post path timestamp nonce
                (lib.codec.dumps_bytes payload))) [
                  | inl bad ↦ absurd (ground arith)
                  | inr (m, km) ↦
                      let a = ascii key m in
                      let e : signature ≡ lib.crypto.hmac_sha256 key m = ground arith in
                      ap is_ascii e ∙ a
                ]
      ]

  signed_as-authenticated :
      (signature host : String) (draws : Draws) (s : Server) (here : Peer) (db' : Db)
      → sign_federation_request lib.crypto peer.shared_secret post path
          (decimal sent_at)
          nonce
          (lib.codec.dumps_bytes payload)
        ≡ some signature
      → is_ascii signature ≡ true
      → lib.crypto.int (decimal sent_at) ≡ some (pos sent_at)
      → IsFresh (draws.clock 0) (pos sent_at)
      → is_nonce_text nonce ≡ true
      → get_peer server_id s.db ≡ some here
      → here.enabled ≡ true
      → here.address ≡ host
      → here.shared_secret ≡ peer.shared_secret
      → record_federation_nonce here.peer_id nonce (pos sent_at) (draws.clock 1) s.db
        ≡ (ok true, db')
      → peer_of lib (received (signed_as signature) host) draws (signed_as signature).body s
        ≡ (done here.peer_id, record s { db = db' })
  unfolding signed_as received header_content signed_headers peer_of federation_peer use_nonce
      admitted finish
  signed_as-authenticated signature host draws s here db' signed ascii parsed fresh shape known
        enabled address secret unused =
      let checked =
        verify_complete lib.crypto here.shared_secret
          (signed_request (received (signed_as signature) host)
            (lib.codec.dumps_bytes payload)).signed
          (draws.clock 0) (pos sent_at) parsed fresh shape ascii
          (ap
              (λ k.
                sign_federation_request lib.crypto k post path (decimal sent_at) nonce
                  (lib.codec.dumps_bytes payload))
              secret
            ∙ signed) in
      let same : str_eq host here.address ≡ true =
        ap (λ x. str_eq x here.address) (sym address) ∙ eq_refl here.address in
      ground arith

  signed_as-read :
      (signature host : String) (s : Server)
      → lib.crypto.int (decimal (length (lib.codec.dumps_bytes payload)))
        ≡ some (pos (length (lib.codec.dumps_bytes payload)))
      → 1 ≤ length (lib.codec.dumps_bytes payload)
      → length (lib.codec.dumps_bytes payload) ≤ max_json_body
      → read_body lib.crypto (received (signed_as signature) host) s
        ≡ (done (lib.codec.dumps_bytes payload), s)
  unfolding signed_as received header_content signed_headers read_body finish fail_if require
      arrived ◌>>=◌
  signed_as-read signature host s parsed least most =
      let body = lib.codec.dumps_bytes payload in
      let whole = take-all (length body) body (omega arith) in let json = json_type in ground arith

  -- A request that `signed_json_request` sends to a peer is read whole and authenticated there: by a
  -- server that has the sender as an enabled peer, at the address that the connection comes from and
  -- with the secret that the sender holds, whose clock is within 300 seconds of the sender's and that
  -- has not recorded the nonce. The nonce has the right shape, the body has between 1 and
  -- 98,304 bytes; of the libraries, `int` reads the two decimal numbers and signatures are ASCII.
  pub posted_is_authenticated :
      (p : Posted) (host : String) (draws : Draws) (s : Server) (here : Peer) (db' : Db)
      → posted lib.codec lib.crypto lib.network server_id peer path payload sent_at nonce ≡ some p
      → lib.crypto.int (decimal sent_at) ≡ some (pos sent_at)
      → lib.crypto.int (decimal (length p.body)) ≡ some (pos (length p.body))
      → ((key : Bytes) (m : String) → is_ascii (lib.crypto.hmac_sha256 key m) ≡ true)
      → 1 ≤ length p.body
      → length p.body ≤ max_json_body
      → is_nonce_text nonce ≡ true
      → IsFresh (draws.clock 0) (pos sent_at)
      → get_peer server_id s.db ≡ some here
      → here.enabled ≡ true
      → here.address ≡ host
      → here.shared_secret ≡ peer.shared_secret
      → record_federation_nonce here.peer_id nonce (pos sent_at) (draws.clock 1) s.db
        ≡ (ok true, db')
      → (read_body lib.crypto (received p host) s ≡ (done p.body, s))
        × (peer_of lib (received p host) draws p.body s
            ≡ (done here.peer_id, record s { db = db' }))
  unfolding signed_as
  posted_is_authenticated p host draws s here db' h time size ascii least most shape fresh known
        enabled address secret unused =
      let (signature, signed, e) = posted-cases p h in
      let ascii_signature = sign-is_ascii ascii (decimal sent_at) signature signed in
      let body_of : p.body ≡ lib.codec.dumps_bytes payload = ap (λ (q : Posted). q.body) e in
      subst
        (λ (q : Posted).
          (read_body lib.crypto (received q host) s ≡ (done q.body, s))
          × (peer_of lib (received q host) draws q.body s
              ≡ (done here.peer_id, record s { db = db' })))
        (sym e)
        (
          signed_as-read signature host s
              (subst (λ b. lib.crypto.int (decimal (length b)) ≡ some (pos (length b))) body_of
                size)
              (subst (λ b. 1 ≤ length b) body_of least)
              (subst (λ b. length b ≤ max_json_body) body_of most),
          signed_as-authenticated signature host draws s here db' signed ascii_signature time fresh
              shape known enabled address secret unused,
        )
