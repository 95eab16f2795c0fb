-- ===== src/Store/KeyPackages.antt =====
-- The one-time key packages: `add_key_packages` and `claim_device_packages`.
pub mod Stock
pub mod Claims
pub mod Once
use Prim.Native.Nat.{Ordering}
use Prim.Native.Nat.{compare as compare_ℕ}
use Prim.Native.String.{compare, count}
use home_assistant_chat_comp.Prelude.{
  ℕ, zero, suc, ◌+◌, String, Bool, true, false, ◌&&◌, ◌||◌, not, Option, none, some, List, [], ◌∷◌,
  map, ltb, leb, ◌==◌, str_eq, length, find?, any_row, count_where, select, order_by, update_where,
  if◌then◌else◌,
}
use home_assistant_chat_comp.Schema.{Db, DeviceRow, KeyPackageRow}
use home_assistant_chat_comp.Schema.Event.{Json, KeyPackage}
use home_assistant_chat_comp.Exec.{
  Method, pure, raise, gets, modify, raise_if, transaction, invalid_key_packages, unknown_device,
  key_package_limit, key_package_conflict, invalid_key_package_claimant, ◌>>=◌, ◌>>◌,
}
use home_assistant_chat_comp.Store.Outgoing.{is_device}
use home_assistant_chat_comp.Store.Devices.{Device, device_dict, identity_devices}

abbrev pub is_none : {A : Type 0} → Option A → Bool
is_none none = true
is_none (some _) = false

abbrev pub max_packages : ℕ
max_packages = 100

-- `WHERE device_id = ? AND consumed_at IS NULL`
abbrev pub is_available : String → KeyPackageRow → Bool
is_available device_id k = str_eq k.device_id device_id && is_none k.consumed_at

-- `WHERE package_id = ?`, the primary key
abbrev pub is_package : String → KeyPackageRow → Bool
is_package package_id k = str_eq k.package_id package_id

module _ (json : Json) where
  abbrev pub package_row : String → ℕ → KeyPackage → KeyPackageRow
  package_row device_id now p = record {
    package_id = p.package_id;
    device_id = device_id;
    package_json = json.dumps_package p;
    created_at = now;
    consumed_at = none;
    claimed_by = none;
  }

  -- the body of the loop: whether a row was added
  unfoldable pub add_package : String → ℕ → KeyPackage → Method Bool
  add_package device_id now p = do
    existing ← gets (λ db. find? (is_package p.package_id) db.key_packages)
    elim existing [
      | some k ↦ (do
        raise_if
            (not (str_eq k.device_id device_id && str_eq k.package_json (json.dumps_package p)))
            key_package_conflict
        pure false)
      | none ↦ (do
        modify (λ db. record db { key_packages = package_row device_id now p ∷ db.key_packages })
        pure true)
    ]

  -- the loop: how many rows were added
  unfoldable pub add_each : String → ℕ → List KeyPackage → Method ℕ
  add_each device_id now [] = pure 0
  add_each device_id now (p ∷ ps) =
      let rest = add_each device_id now ps in
      do added ← add_package device_id now p; n ← rest; pure (if added then suc n else n)

  unfoldable pub add_key_packages : String → String → List KeyPackage → ℕ → Method ℕ
  add_key_packages account_id device_id packages now = do
    raise_if (not (leb 1 (length packages) && leb (length packages) max_packages))
        invalid_key_packages
    transaction (do
      known ← gets (λ db. any_row (is_device device_id account_id) db.devices)
      raise_if (not known) unknown_device
      available ← gets (λ db. count_where (is_available device_id) db.key_packages)
      raise_if (ltb max_packages (available + length packages)) key_package_limit
      add_each device_id now packages)

-- `ORDER BY created_at, package_id`
abbrev pub package_before : KeyPackageRow → KeyPackageRow → Bool
package_before a b = elim (compare_ℕ a.created_at b.created_at) [
  | Ordering.lt ↦ true
  | Ordering.gt ↦ false
  | Ordering.eq ↦ elim (compare a.package_id b.package_id) [ Ordering.gt ↦ false | _ ↦ true ]
]

abbrev pub first_row : {A : Type 0} → List A → Option A
first_row [] = none
first_row (x ∷ _) = some x

-- `WHERE device_id = ? AND claimed_by = ?`
abbrev pub is_claimed : String → String → KeyPackageRow → Bool
is_claimed device_id claimant k =
    str_eq k.device_id device_id && elim k.claimed_by [ none ↦ false | some c ↦ str_eq c claimant ]

-- `WHERE device_id = ? AND consumed_at IS NULL AND claimed_by IS NULL`
abbrev pub is_free : String → KeyPackageRow → Bool
is_free device_id k = is_available device_id k && is_none k.claimed_by

-- the package that the claimant has for the device, or else the oldest free one
unfoldable pub choose : String → String → List KeyPackageRow → Option KeyPackageRow
choose device_id claimant rows =
    elim (first_row (order_by package_before (select (is_claimed device_id claimant) rows))) [
      | some k ↦ some k
      | none ↦ first_row (order_by package_before (select (is_free device_id) rows))
    ]

-- `COALESCE`
abbrev pub coalesce : {A : Type 0} → Option A → A → Option A
coalesce none a = some a
coalesce (some b) _ = some b

-- `SET consumed_at = COALESCE(...), claimed_by = COALESCE(...)`
abbrev pub reserve : String → ℕ → KeyPackageRow → KeyPackageRow
reserve claimant now k = record k {
  consumed_at = coalesce k.consumed_at now;
  claimed_by = coalesce k.claimed_by claimant;
}

-- the update of the chosen package
unfoldable pub take_package :
    String → ℕ → Option KeyPackageRow → List KeyPackageRow → List KeyPackageRow
take_package claimant now none rows = rows
take_package claimant now (some k) rows =
    update_where (is_package k.package_id) (reserve claimant now) rows

-- the loop over the devices: the packages that are chosen, and the table after it
unfoldable pub claim_each :
    String
    → ℕ
    → List DeviceRow
    → List KeyPackageRow
    → List (DeviceRow × Option KeyPackageRow) × List KeyPackageRow
unfolding choose take_package
claim_each claimant now [] rows = ([], rows)
claim_each claimant now (d ∷ ds) rows =
    let chosen = choose d.id claimant rows in
    let (rest, rows') = claim_each claimant now ds (take_package claimant now chosen rows) in
    ((d, chosen) ∷ rest, rows')

-- a device with its key package, as it is returned
pub record Item : Type 0 where
  pub device : Device
  pub key_package : Option KeyPackage

module _ (json : Json) where
  abbrev pub item_of : DeviceRow × Option KeyPackageRow → Item
  item_of (d, none) = record { device = device_dict d; key_package = none }
  item_of (d, some k) = record {
    device = device_dict d;
    key_package = some (json.loads_package k.package_json);
  }

  unfoldable pub claim_device_packages : ℕ → String → ℕ → Method (List Item)
  claim_device_packages identity claimant now = do
    raise_if (not (leb 1 (count claimant) && leb (count claimant) 160)) invalid_key_package_claimant
    transaction (do
      devices ← gets (identity_devices identity)
      chosen ← gets (λ db. claim_each claimant now devices db.key_packages)
      modify (λ db. record db { key_packages = chosen.1 })
      pure (map item_of chosen.0))
