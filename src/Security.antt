-- ===== src/Security.antt =====
-- security.py: the signature of federation requests. The hash functions, base64 and `int` are the
-- standard library's, parameters of the model.
pub mod Fresh
pub mod Passwords
use Prim.Native.String.{[], ◌∷◌, ◌++◌, count}
use home_assistant_chat_comp.Prelude.{
  ℕ, ℤ, pos, zero, suc, ◌+◌, ◌-◌, ◌%◌, String, Bool, true, false, ◌&&◌, ◌||◌, not, Option, none,
  some, ltb, leb, ◌==◌, ltb_ℤ, pos_part, neg_part, str_eq, if◌then◌else◌,
}
use home_assistant_chat_comp.Prelude
use home_assistant_chat_comp.Text.{is_url_char, all_chars, is_ascii, repeated}
use home_assistant_chat_comp.Protocol.{federation_clock_skew_seconds}

-- bytes, as numbers
abbrev pub Bytes : Type 0
Bytes = Prelude.List ℕ

pub record Crypto : Type 0 where
  pub int : String → Option ℤ
  pub urlsafe_b64decode : String → Option Bytes
  pub sha256_hex : Bytes → String
  -- the HMAC of a text under a key, as base64url without padding
  pub hmac_sha256 : Bytes → String → String

-- the methods that the handler passes on; each is in upper case already
pub data HttpMethod : Type 0 where
  get post delete : HttpMethod

abbrev pub method_name : HttpMethod → String
method_name get = "GET"
method_name post = "POST"
method_name delete = "DELETE"

-- `"=" * (-len(value) % 4)`
unfoldable pub padding : ℕ → String
padding zero = ""
padding (suc n) = "=" ++ padding n

module _ (crypto : Crypto) where
  -- `_decode_b64url`
  unfoldable pub decode_b64url : String → Option Bytes
  unfolding padding all_chars
  decode_b64url value =
      if str_eq value "" || not (all_chars is_url_char value)
      then none
      else crypto.urlsafe_b64decode (value ++ padding ((4 - count value % 4) % 4))

  -- `canonical_federation_request`; an error of the encoding is a `ValueError`
  unfoldable pub canonical_federation_request :
      HttpMethod → String → String → String → Bytes → Option String
  unfolding is_ascii
  canonical_federation_request method path timestamp nonce body =
      let text =
        method_name method
        ++ "\n"
        ++ path
        ++ "\n"
        ++ timestamp
        ++ "\n"
        ++ nonce
        ++ "\n"
        ++ crypto.sha256_hex body in
      if is_ascii text then some text else none

  -- `None` stands for a `ValueError`
  unfoldable pub sign_federation_request :
      String → HttpMethod → String → String → String → Bytes → Option String
  unfolding decode_b64url canonical_federation_request
  sign_federation_request secret method path timestamp nonce body = elim (decode_b64url secret) [
    | none ↦ none
    | some key ↦
        if Prelude.length key == 32
        then (elim (canonical_federation_request method path timestamp nonce body) [
          | none ↦ none
          | some message ↦ some (crypto.hmac_sha256 key message)
        ])
        else none
  ]

-- what a verification raises; `type_error` is no `ValueError`: `hmac.compare_digest` raises it on a
-- text that is not ASCII
pub data VerifyError : Type 0 where
  invalid_federation_timestamp stale_federation_request invalid_federation_nonce : VerifyError
  invalid_federation_signature type_error : VerifyError

pub data Verified : Type 0 where
  verified : (timestamp : ℤ) → Verified
  rejected : VerifyError → Verified

-- the signed parts of a request, as the headers give them
pub record Signed : Type 0 where
  pub method : HttpMethod
  pub path : String
  pub timestamp : String
  pub nonce : String
  pub signature : String
  pub body : Bytes

-- `abs(current - parsed_time) > FEDERATION_CLOCK_SKEW_SECONDS`
abbrev pub is_stale : ℕ → ℤ → Bool
is_stale now t =
    ltb (pos_part t + federation_clock_skew_seconds) (now + neg_part t)
    || ltb (now + neg_part t + federation_clock_skew_seconds) (pos_part t)

-- `[A-Za-z0-9_-]{16,96}`
unfoldable pub is_nonce_text : String → Bool
unfolding repeated
is_nonce_text nonce = repeated is_url_char 16 96 nonce

-- the comparison of the expected signature with the one of the request
unfoldable pub compare_signature : Option String → String → ℤ → Verified
compare_signature none signature t = rejected invalid_federation_signature
compare_signature (some expected) signature t =
    if is_ascii signature
    then (if str_eq expected signature then verified t else rejected invalid_federation_signature)
    else rejected type_error

module _ (crypto : Crypto) where
  unfoldable pub verify_federation_signature : String → Signed → ℕ → Verified
  unfolding is_nonce_text compare_signature
  verify_federation_signature secret r now = elim (crypto.int r.timestamp) [
    | none ↦ rejected invalid_federation_timestamp
    | some t ↦
        if is_stale now t
        then rejected stale_federation_request
        else if not (is_nonce_text r.nonce)
        then rejected invalid_federation_nonce
        else compare_signature
            (sign_federation_request crypto secret r.method r.path r.timestamp r.nonce r.body)
            r.signature t
  ]
