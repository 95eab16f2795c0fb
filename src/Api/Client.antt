-- ===== src/Api/Client.antt =====
-- api.py, `_dispatch_client`: the session of a request, the login and the logout.
pub mod Messages
pub mod Devices
use Prim.Native.String.{◌++◌, count}
use home_assistant_chat_comp.Prelude.{
  ℕ, zero, suc, ◌-◌, String, Bool, true, false, ◌&&◌, ◌||◌, not, Option, none, some, List, [], ◌∷◌,
  leb, ◌==◌, str_eq, length, if◌then◌else◌,
}
use home_assistant_chat_comp.Text.Parts.{after_prefix, decimal}
use home_assistant_chat_comp.Protocol.{session_lifetime_seconds}
use home_assistant_chat_comp.Address.{UserAddress, is_local, parse_user_address, print_address}
use home_assistant_chat_comp.Schema.Event.{KeyPackage}
use home_assistant_chat_comp.Exec.{Result, ok, err}
use home_assistant_chat_comp.Federation.Request.{
  Fetched, fetched, fetch_error, fetch_raised, fetch_devices,
}
use home_assistant_chat_comp.Store.Accounts.{authenticate}
use home_assistant_chat_comp.Store.Sessions.{
  Account, is_token, create_session, account_for_token, revoke_session,
}
use home_assistant_chat_comp.Store.Devices.{Device, register_device}
use home_assistant_chat_comp.Store.KeyPackages.{Item, add_key_packages, claim_device_packages}
use home_assistant_chat_comp.Store.Peers.{Peer, resolve_peer}
use home_assistant_chat_comp.Wire.{
  Value, null, boolean, integer, float, text, array, object, Items, nil, item, Fields, no_fields,
  field, as_text, as_array, as_object, text_of, value_of, has_exactly, Checked, valid, value_error,
  other_error, reject_if, Octets, Codec,
}
use home_assistant_chat_comp.Wire
use home_assistant_chat_comp.Wire.Envelope.{validate_device_id}
use home_assistant_chat_comp.Wire.DeviceKey.{validate_public_jwk}
use home_assistant_chat_comp.Wire.Json.{number, dict, list_value}
use home_assistant_chat_comp.Api.Http.{
  Library, HttpRequest, Draws, Handler, finish, fail, crash, fail_if, ◌>>=◌, ◌>>◌, call, uncaught,
  admit_login, require, Reply, reply, header_or_empty, checked, loads, caught, parse_json,
  json_object,
}

-- the token of `^Bearer ([A-Za-z0-9_-]{43})$`
unfoldable pub bearer : String → Option String
bearer s = elim (after_prefix "Bearer " s) [
  | none ↦ none
  | some token ↦ if is_token token then some token else none
]

-- zeros in front of a text, up to the width
unfoldable pub zeros : ℕ → String
zeros zero = ""
zeros (suc n) = "0" ++ zeros n

-- `public_dict`, with the identity in eight digits
unfoldable pub public_dict : Account → Value
public_dict a = dict (
    ("id", text a.id)
    ∷ ("identity", text (zeros (8 - count (decimal a.identity)) ++ decimal a.identity))
    ∷ ("display_name", text a.display_name)
    ∷ ("is_admin", boolean a.is_admin)
    ∷ ("enabled", boolean a.enabled)
    ∷ ("created_at", number a.created_at)
    ∷ [])

module _ (lib : Library) (req : HttpRequest) (draws : Draws) where
  -- `_client_account`
  unfoldable pub client_account : Handler (Account × String)
  client_account = do
    token ←
        require (bearer (header_or_empty req "Authorization")) 401 "authentication_required"
          "Bearer authentication required"
    result ← call (account_for_token lib.token_digest token (draws.clock 0))
    found ← uncaught result
    account ← require found 401 "invalid_session" "Session is invalid or expired"
    finish (account, token)

  -- `POST /v1/sessions`, behind the limiter
  unfoldable pub log_in : Octets → Handler Reply
  log_in body = do
    payload ← json_object lib.codec body ("identity" ∷ "password" ∷ [])
    result ← call (
        authenticate lib.crypto lib.kdf (text_of (value_of "identity" payload))
          (text_of (value_of "password" payload)))
    found ← uncaught result
    account ← require found 401 "invalid_credentials" "Invalid identity or password"
    made ← call (
        create_session lib.token_digest account.id session_lifetime_seconds draws.token
          (draws.clock 0))
    session ← uncaught made
    reply 201 (
        dict (
          ("token", text session.0)
          ∷ ("token_type", text "Bearer")
          ∷ ("expires_at", number session.1)
          ∷ ("expires_in", number session_lifetime_seconds)
          ∷ ("account", public_dict account)
          ∷ []))

  unfoldable pub post_session : Octets → Handler Reply
  post_session body = do
    allowed ← admit_login req.client_host draws.ticks
    if allowed then log_in body else fail 429 "rate_limited" "Too many authentication attempts"

module _ (lib : Library) (draws : Draws) where
  -- `DELETE /v1/session`
  unfoldable pub delete_session : String → Handler Reply
  delete_session token = do
    result ← call (revoke_session lib.token_digest token)
    revoked ← uncaught result
    reply 200 (dict (("revoked", boolean true) ∷ []))
