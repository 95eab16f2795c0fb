-- ===== src/Store/Devices/Registry.antt =====
-- What the registration of devices keeps.
use home_assistant_chat_comp.Prelude.{
  ℕ, ◌≤◌, String, ◌≡◌, ap, Bool, true, false, ◌&&◌, not, Option, none, some, arith, find?,
  count_where, eq_iff, eq_refl, str_eq,
}
use home_assistant_chat_comp.Schema.{Db, DeviceRow}
use home_assistant_chat_comp.Exec.{ok}
use home_assistant_chat_comp.Store.Devices.{Device, is_active, max_devices, register_device}

-- the row of a device
abbrev pub device_row : String → Db → Option DeviceRow
device_row id db = find? (λ (d : DeviceRow). str_eq d.id id) db.devices

same_device : (a b : String) (db : Db) → str_eq a b ≡ true → device_row a db ≡ device_row b db
same_device a b db h = ap (λ x. device_row x db) ((eq_iff a b).0 h)

-- whether a row is an account's device with a key
abbrev pub is_keyed : String → String → Option DeviceRow → Bool
is_keyed account_id public_key none = false
is_keyed account_id public_key (some d) =
    str_eq d.account_id account_id && str_eq d.public_key public_key && not d.revoked

module _ (account_id device_id public_key label : String) (now : ℕ) where
  -- An account with at most 32 devices that are not revoked has at most 32 after any
  -- registration, of its own or of another account.
  pub register_device_limit :
      (a : String) (db : Db)
      → count_where (is_active a) db.devices ≤ max_devices
      → count_where
          (is_active a)
          (register_device account_id device_id public_key label now db).1.devices
        ≤ max_devices
  unfolding register_device count_where
  register_device_limit a db h = ground (arith, eq_iff account_id a)

  -- No registration, whether it succeeds or not, changes a device that is there.
  register_device_keeps :
      (id : String) (d : DeviceRow) (db : Db)
      → device_row id db ≡ some d
      → device_row id (register_device account_id device_id public_key label now db).1 ≡ some d
  unfolding register_device find?
  register_device_keeps id d db h = ground (arith, eq_iff device_id id, same_device device_id id db)

  -- After a registration that succeeded the device is there, not revoked, with that account and key.
  register_device_binds :
      (r : Device) (db db' : Db)
      → register_device account_id device_id public_key label now db ≡ (ok r, db')
      → is_keyed account_id public_key (device_row device_id db') ≡ true
  unfolding register_device find?
  register_device_binds r db db' h =
      ground (arith, eq_refl device_id, eq_refl account_id, eq_refl public_key)
