-- ===== src/Store/Devices.antt =====
-- The devices of an account: `register_device`, `devices_for_identity` and `_device_dict`.
pub mod Registry
use Prim.Native.Nat.{Ordering}
use Prim.Native.Nat.{compare as compare_ℕ}
use Prim.Native.String.{compare, count}
use home_assistant_chat_comp.Prelude.{
  ℕ, String, Bool, true, false, ◌&&◌, ◌||◌, not, Option, none, some, List, [], ◌∷◌, map, ltb, leb,
  ◌==◌, str_eq, find?, any_row, count_where, select, order_by, if◌then◌else◌,
}
use home_assistant_chat_comp.Text.{any_char}
use home_assistant_chat_comp.Schema.{Db, AccountRow, DeviceRow}
use home_assistant_chat_comp.Exec.{
  Method, pure, raise, gets, modify, raise_if, integrity_error, invalid_device_label,
  device_key_conflict, device_revoked, device_limit, ◌>>=◌, ◌>>◌,
}

-- `_device_dict`
pub record Device : Type 0 where
  pub id : String
  pub public_key : String
  pub label : String
  pub created_at : ℕ

unfoldable pub device_dict : DeviceRow → Device
device_dict d = record {
  id = d.id;
  public_key = d.public_key;
  label = d.label;
  created_at = d.created_at;
}

abbrev pub max_devices : ℕ
max_devices = 32

-- `WHERE account_id = ? AND revoked = 0`
abbrev pub is_active : String → DeviceRow → Bool
is_active account_id d = str_eq d.account_id account_id && not d.revoked

-- `len(label) > 80 or any(ord(char) < 32 for char in label)`
unfoldable pub is_bad_label : String → Bool
unfolding any_char
is_bad_label label = ltb 80 (count label) || any_char (λ c. ltb c 32) label

abbrev pub new_device : String → String → String → String → ℕ → DeviceRow
new_device account_id device_id public_key label now = record {
  id = device_id;
  account_id = account_id;
  public_key = public_key;
  label = label;
  last_counter = 0;
  revoked = false;
  created_at = now;
}

-- the insertion of a new device, with the limit of the account
unfoldable pub enroll : String → String → String → String → ℕ → Method Device
unfolding device_dict
enroll account_id device_id public_key label now = do
  active ← gets (λ db. count_where (is_active account_id) db.devices)
  raise_if (leb max_devices active) device_limit
  known ← gets (λ db. any_row (λ (a : AccountRow). str_eq a.id account_id) db.accounts)
  raise_if (not known) integrity_error
  let row = new_device account_id device_id public_key label now
  modify (λ db. record db { devices = row ∷ db.devices })
  pure (device_dict row)

-- a device that is there already: the same key of the same account, and not revoked
unfoldable pub confirm : String → String → DeviceRow → Method Device
unfolding device_dict
confirm account_id public_key d = do
  raise_if (not (str_eq d.account_id account_id && str_eq d.public_key public_key))
      device_key_conflict
  raise_if d.revoked device_revoked
  pure (device_dict d)

unfoldable pub register_device : String → String → String → String → ℕ → Method Device
unfolding enroll confirm is_bad_label
register_device account_id device_id public_key label now = do
  raise_if (is_bad_label label) invalid_device_label
  row ← gets (λ db. find? (λ (d : DeviceRow). str_eq d.id device_id) db.devices)
  elim row [
    | some d ↦ confirm account_id public_key d
    | none ↦ enroll account_id device_id public_key label now
  ]

-- `ORDER BY d.created_at, d.id`
abbrev pub device_before : DeviceRow → DeviceRow → Bool
device_before a b = elim (compare_ℕ a.created_at b.created_at) [
  | Ordering.lt ↦ true
  | Ordering.gt ↦ false
  | Ordering.eq ↦ elim (compare a.id b.id) [ Ordering.gt ↦ false | _ ↦ true ]
]

-- the devices that are not revoked, of the enabled account with the identity
unfoldable pub identity_devices : ℕ → Db → List DeviceRow
identity_devices identity db =
    elim (find? (λ (a : AccountRow). a.identity == identity && a.enabled) db.accounts) [
      | none ↦ []
      | some a ↦ order_by device_before (select (is_active a.id) db.devices)
    ]

unfoldable pub devices_for_identity : ℕ → Method (List Device)
unfolding identity_devices device_dict
devices_for_identity identity = do
  rows ← gets (identity_devices identity)
  pure (map device_dict rows)
