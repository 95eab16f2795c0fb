-- ===== src/Api/Client/Devices.antt =====
-- api.py, `_dispatch_client`: the handlers of devices and of key packages.
use Prim.Native.String.{◌++◌}
use home_assistant_chat_comp.Prelude.{
  ℕ, String, ◌&&◌, not, Option, none, some, List, [], ◌∷◌, leb, str_eq, length, if◌then◌else◌,
}
use home_assistant_chat_comp.Address.{UserAddress, parse_user_address, print_address}
use home_assistant_chat_comp.Schema.Event.{KeyPackage}
use home_assistant_chat_comp.Exec.{Result, ok, err}
use home_assistant_chat_comp.Exec.Messages.{message_of}
use home_assistant_chat_comp.Federation.Request.{
  Fetched, fetched, fetch_error, fetch_raised, fetch_devices,
}
use home_assistant_chat_comp.Store.Sessions.{Account}
use home_assistant_chat_comp.Store.Devices.{Device, register_device}
use home_assistant_chat_comp.Store.KeyPackages.{Item, add_key_packages, claim_device_packages}
use home_assistant_chat_comp.Store.Peers.{Peer, resolve_peer}
use home_assistant_chat_comp.Wire.{
  Value, null, boolean, integer, float, text, array, object, Items, nil, item, Fields, no_fields,
  field, as_text, as_array, as_object, text_of, value_of, has_exactly, Checked, valid, value_error,
  other_error, reject_if, Octets, Codec,
}
use home_assistant_chat_comp.Wire
use home_assistant_chat_comp.Wire.Envelope.{validate_device_id}
use home_assistant_chat_comp.Wire.DeviceKey.{validate_public_jwk}
use home_assistant_chat_comp.Wire.Json.{number, dict, list_value}
use home_assistant_chat_comp.Api.Http.{
  Library, Draws, Handler, finish, fail, crash, require, fail_if, ◌>>=◌, ◌>>◌, call, uncaught,
  Reply, reply, checked, caught, parse_json, json_object,
}

abbrev pub device_fields : Device → List (String × Value)
device_fields d =
    ("id", text d.id)
    ∷ ("public_key", text d.public_key)
    ∷ ("label", text d.label)
    ∷ ("created_at", number d.created_at)
    ∷ []

abbrev pub package_value : Option KeyPackage → Value
package_value none = null
package_value (some p) = dict (("package_id", text p.package_id) ∷ ("payload", text p.payload) ∷ [])

-- a device with its key package, in a reply
abbrev pub item_value : Item → Value
item_value i = dict (
    ("id", text i.device.id)
    ∷ ("public_key", text i.device.public_key)
    ∷ ("label", text i.device.label)
    ∷ ("created_at", number i.device.created_at)
    ∷ ("key_package", package_value i.key_package)
    ∷ [])

-- the text of the id of a package: `uuid.UUID` raises `TypeError` on `None`, and on other values that
-- are no text an `AttributeError`, which is not caught here
abbrev pub package_id_of : Codec → Value → Checked String
package_id_of codec (text s) = elim (codec.uuid s) [
  | none ↦ value_error "invalid_key_packages"
  | some u ↦ if str_eq u.canonical s then valid s else value_error "invalid_key_packages"
]
package_id_of codec null = value_error "invalid_key_packages"
package_id_of codec _ = other_error

-- the payload of a package: base64 of 32 to 4,096 bytes
abbrev pub payload_of : Codec → Value → Checked String
payload_of codec value = elim (as_text value) [
  | none ↦ value_error "invalid_key_packages"
  | some s ↦ elim (codec.b64decode s) [
    | none ↦ value_error "invalid_key_packages"
    | some raw ↦
        if leb 32 (length raw) && leb (length raw) 4_096 && str_eq (codec.b64encode raw) s
        then valid s
        else value_error "invalid_key_packages"
  ]
]

-- one round of the loop
unfoldable pub package_of : Codec → Value → Checked KeyPackage
package_of codec value = elim (as_object value) [
  | none ↦ value_error "invalid_key_packages"
  | some fs ↦
      Wire.◌>>◌
        (reject_if (not (has_exactly ("package_id" ∷ "payload" ∷ []) fs)) "invalid_key_packages")
        (Wire.◌>>=◌ (package_id_of codec (value_of "package_id" fs)) λ id.
          Wire.◌>>=◌ (payload_of codec (value_of "payload" fs))
            λ payload. valid (record { package_id = id; payload = payload }))
]

-- the loop over the packages
unfoldable pub packages_of : Codec → Items → Checked (List KeyPackage)
packages_of codec nil = valid []
packages_of codec (item v xs) =
    let rest = packages_of codec xs in
    Wire.◌>>=◌ (package_of codec v) λ p. Wire.◌>>=◌ rest λ ps. valid (p ∷ ps)

-- `except (ValueError, TypeError, binascii.Error)`
unfoldable pub packages_checked : {A : Type 0} → Checked A → Handler A
packages_checked (valid a) = finish a
packages_checked (value_error e) = fail 400 "invalid_key_packages" "Key packages are invalid"
packages_checked other_error = crash

unfoldable pub packages_failed : {A : Type 0} → Option String → Handler A
packages_failed none = crash
packages_failed (some e) = fail 400 "invalid_key_packages" "Key packages are invalid"

unfoldable pub packages_caught : {A : Type 0} → Result A → Handler A
packages_caught (ok a) = finish a
packages_caught (err e) = packages_failed (message_of e)

abbrev pub status_400 : String → ℕ
status_400 e = 400

-- the label, which `register_device` refuses if it is no text
abbrev pub label_of : Value → Checked String
label_of label = elim (as_text label) [
  | none ↦ value_error "invalid_device_label"
  | some s ↦ valid s
]

-- what `fetch_devices` returned or raised
unfoldable pub fetched_value : Fetched → Handler Value
fetched_value (fetched devices) = finish (array devices)
fetched_value (fetch_error e) = fail 502 "peer_unavailable" "Federation peer is unavailable"
fetched_value fetch_raised = crash

abbrev pub bad_device : String
bad_device = "Device registration is invalid"

abbrev pub bad_packages : String
bad_packages = "Key package fields are invalid"

module _ (lib : Library) (draws : Draws) where
  -- `POST /v1/devices`
  unfoldable pub post_device : Account → Octets → Handler Reply
  post_device account body = do
    payload ← parse_json lib.codec body
    fs ← require (as_object payload) 400 "invalid_device" "Device fields are invalid"
    fail_if (not (has_exactly ("device_id" ∷ "public_key" ∷ "label" ∷ []) fs)) 400 "invalid_device"
        "Device fields are invalid"
    device_id ←
        checked status_400 bad_device (validate_device_id lib.codec (value_of "device_id" fs))
    public_key ←
        checked status_400 bad_device (validate_public_jwk lib.codec (value_of "public_key" fs))
    label ← checked status_400 bad_device (label_of (value_of "label" fs))
    result ← call (register_device account.id device_id public_key label (draws.clock 1))
    device ← caught status_400 bad_device result
    reply 201 (dict (("device", dict (device_fields device)) ∷ []))

  -- the devices of an account on this server
  unfoldable pub local_devices : Account → ℕ → Handler Value
  local_devices account number = do
    result ←
        call
          (claim_device_packages lib.json number ("local-account:" ++ account.id) (draws.clock 1))
    items ← uncaught result
    finish (list_value item_value items)

  -- `fetch_devices`, with the id of this server
  unfoldable pub ask_peer : Account → ℕ → Peer → Handler Value
  ask_peer account number peer s =
      fetched_value
        (fetch_devices lib.codec lib.crypto lib.network s.db.server_id peer number account.identity
          (draws.clock 1) draws.nonce)
        s

  -- the devices of an account on the server of a peer
  unfoldable pub remote_devices : Account → ℕ → Option ℕ → String → Handler Value
  remote_devices account number port server = do
    result ← call (resolve_peer lib.ip_address server port)
    found ← uncaught result
    peer ← require found 404 "peer_not_found" "Federation peer is not configured"
    ask_peer account number peer

  unfoldable pub find_devices : Account → UserAddress → Option String → Handler Value
  find_devices account address none = local_devices account address.number
  find_devices account address (some server) =
      remote_devices account address.number address.port server

  -- `POST /v1/devices/lookup`
  unfoldable pub post_lookup : Account → Octets → Handler Reply
  post_lookup account body = do
    payload ← json_object lib.codec body ("address" ∷ [])
    address ←
        checked status_400 "Address is invalid"
          (parse_user_address lib.ip_address (value_of "address" payload))
    devices ← find_devices account address address.server
    reply 200 (dict (("address", text (print_address address)) ∷ ("devices", devices) ∷ []))

  -- `POST /v1/key-packages`; any exception that is caught has the same answer
  unfoldable pub post_packages : Account → Octets → Handler Reply
  post_packages account body = do
    payload ← parse_json lib.codec body
    fs ← require (as_object payload) 400 "invalid_key_packages" bad_packages
    fail_if (not (has_exactly ("device_id" ∷ "packages" ∷ []) fs)) 400 "invalid_key_packages"
        bad_packages
    xs ← require (as_array (value_of "packages" fs)) 400 "invalid_key_packages" bad_packages
    device_id ← packages_checked (validate_device_id lib.codec (value_of "device_id" fs))
    packages ← packages_checked (packages_of lib.codec xs)
    result ← call (add_key_packages lib.json account.id device_id packages (draws.clock 1))
    added ← packages_caught result
    reply 201 (dict (("added", number added) ∷ []))
