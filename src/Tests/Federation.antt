-- ===== src/Tests/Federation.antt =====
-- A signed request of the peer.
use home_assistant_chat_comp.Prelude.{
  pos, String, ◌≡◌, refl, Option, none, some, true, [], ◌∷◌, select, str_eq, if◌then◌else◌,
}
use home_assistant_chat_comp.Text.{is_ascii}
use home_assistant_chat_comp.Address.{IpAddress, ipv4, parse_ipv4}
use home_assistant_chat_comp.Exec.{ok}
use home_assistant_chat_comp.Security.{
  Crypto, Signed, post, verified, is_nonce_text, sign_federation_request,
  verify_federation_signature,
}
use home_assistant_chat_comp.Security.Fresh.{IsFresh, verify_sound}
use home_assistant_chat_comp.Store.Peers.{join_transport, resolve_peer}
use home_assistant_chat_comp.Tests.Data.{remote, db}

-- functions for the run, in place of those of the standard library
abbrev pub crypto : Crypto
crypto = record {
  int = λ s. if str_eq s "1000" then some (pos 1000) else none;
  urlsafe_b64decode = λ _. some (
      0 ∷ 1 ∷ 2 ∷ 3 ∷ 4 ∷ 5 ∷ 6 ∷ 7 ∷ 0 ∷ 1 ∷ 2 ∷ 3 ∷ 4 ∷ 5 ∷ 6 ∷ 7 ∷ 0 ∷ 1 ∷ 2 ∷ 3 ∷ 4 ∷ 5 ∷ 6 ∷ 7
      ∷ 0 ∷ 1 ∷ 2 ∷ 3 ∷ 4 ∷ 5 ∷ 6 ∷ 7 ∷ []);
  sha256_hex = λ _. "00";
  hmac_sha256 = λ _ _. "sig";
}

abbrev signed : Signed
signed = record {
  method = post;
  path = "/federation/v2/events";
  timestamp = "1000";
  nonce = "abcdefghijklmnop";
  signature = "sig";
  body = [];
}

request_verified : verify_federation_signature crypto "secret" signed 1100 ≡ verified (pos 1000)
unfolding verify_federation_signature sign_federation_request
request_verified = refl

verify_sound_example :
    (crypto.int "1000" ≡ some (pos 1000))
    × IsFresh 1100 (pos 1000)
    × (is_nonce_text "abcdefghijklmnop" ≡ true)
    × (sign_federation_request crypto "secret" post "/federation/v2/events" "1000"
          "abcdefghijklmnop" []
        ≡ some "sig")
verify_sound_example = verify_sound crypto "secret" signed 1100 (pos 1000) request_verified

nonce_shape : is_nonce_text "abcdefghijklmnop" ≡ true
unfolding is_nonce_text
nonce_shape = refl

signature_shape : is_ascii "sig" ≡ true
unfolding is_ascii
signature_shape = refl

request_signed :
    sign_federation_request crypto "secret" post "/federation/v2/events" "1000" "abcdefghijklmnop"
      []
    ≡ some "sig"
unfolding sign_federation_request
request_signed = refl

-- a parser for the run, which keeps the text
abbrev pub ip_address : String → Option IpAddress
ip_address t = some (ipv4 t)

parsed : parse_ipv4 ip_address "10.0.0.2" ≡ some "10.0.0.2"
unfolding parse_ipv4
parsed = refl

resolved : resolve_peer ip_address "10.0.0.2" none db ≡ (ok (some (join_transport [] remote)), db)
unfolding resolve_peer select parse_ipv4
resolved = refl
