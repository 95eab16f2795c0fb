-- ===== src/Tests/Devices.antt =====
-- A device, and the key packages of it.
use home_assistant_chat_comp.Prelude.{
  ◌+◌, ◌≤◌, String, ◌≡◌, ◌≢◌, refl, inl, none, some, List, [], ◌∷◌, arith, eq_iff, length, find?,
  any_row, count_where, select, order_by, update_where,
}
use home_assistant_chat_comp.Schema.{Db, KeyPackageRow}
use home_assistant_chat_comp.Schema.Event.{KeyPackage}
use home_assistant_chat_comp.Exec.{ok}
use home_assistant_chat_comp.Store.Devices.{Device, is_active, max_devices, register_device}
use home_assistant_chat_comp.Store.Devices.Registry.{device_row, register_device_limit}
use home_assistant_chat_comp.Store.KeyPackages.{
  max_packages, add_package, add_each, add_key_packages, choose, take_package, claim_each,
}
use home_assistant_chat_comp.Store.KeyPackages.Stock.{stock, add_key_packages-stock}
use home_assistant_chat_comp.Store.KeyPackages.Claims.{IsKeyed, Claim, Gives, after_claim}
use home_assistant_chat_comp.Store.KeyPackages.Once.{
  none_yet, one_more, cleaned, uploaded, claims_disjoint,
}
use home_assistant_chat_comp.Store.Cleanup.{cleanup_expired}
use home_assistant_chat_comp.Prelude.{delete_where}
use home_assistant_chat_comp.Tests.Data.{phone, db, json}

abbrev tablet_db : Db
tablet_db = (register_device "alice" "tablet" "key2" "Tablet" 1000 db).1

phone_active : count_where (is_active "alice") db.devices ≤ max_devices
unfolding count_where
phone_active = omega arith

register_device_limit_example : count_where (is_active "alice") tablet_db.devices ≤ max_devices
register_device_limit_example =
    register_device_limit "alice" "tablet" "key2" "Tablet" 1000 "alice" db phone_active

phone_found : device_row "phone" db ≡ some phone
unfolding find?
phone_found = refl

abbrev tablet : Device
tablet = record { id = "tablet"; public_key = "key2"; label = "Tablet"; created_at = 1000 }

tablet_registered :
    register_device "alice" "tablet" "key2" "Tablet" 1000 db ≡ (ok tablet, tablet_db)
unfolding register_device find? any_row count_where
tablet_registered = refl

abbrev packages : List KeyPackage
packages =
    record { package_id = "p1"; payload = "one" }
    ∷ record { package_id = "p2"; payload = "two" }
    ∷ []

abbrev stocked_db : Db
stocked_db = (add_key_packages json "alice" "phone" packages 1000 db).1

packages_added : add_key_packages json "alice" "phone" packages 1000 db ≡ (ok 2, stocked_db)
unfolding add_key_packages add_each add_package find? any_row count_where
packages_added = refl

add_key_packages-stock_example :
    (stock "phone" stocked_db ≡ stock "phone" db + 2)
    × (2 ≤ length packages)
    × (stock "phone" stocked_db ≤ max_packages)
add_key_packages-stock_example =
    add_key_packages-stock json "phone" 1000 "alice" packages 2 db stocked_db packages_added

abbrev parcel : String → KeyPackageRow
parcel id = record {
  package_id = id;
  device_id = "phone";
  package_json = "one";
  created_at = 1000;
  consumed_at = none;
  claimed_by = none;
}

abbrev stocked : List KeyPackageRow
stocked = parcel "p1" ∷ parcel "p2" ∷ []

abbrev first_claim : Claim
first_claim = record { claimant = "srv_b:3"; now = 1100; devices = phone ∷ [] }

abbrev last_claim : Claim
last_claim = record { claimant = "srv_b:4"; now = 1200; devices = phone ∷ [] }

stocked-IsKeyed : IsKeyed stocked
unfolding find?
stocked-IsKeyed = (refl, (refl, tt))

claimants_differ : first_claim.claimant ≢ last_claim.claimant
claimants_differ e = ground (arith, eq_iff first_claim.claimant last_claim.claimant)

first_given : Gives (parcel "p1") (claim_each "srv_b:3" 1100 (phone ∷ []) stocked).0
unfolding claim_each choose take_package select order_by update_where
first_given = inl refl

abbrev keyed_db : Db
keyed_db = record db { key_packages = stocked }

-- the table after the first claim, and a cleanup and an upload behind it
abbrev claimed_db : Db
claimed_db = record keyed_db { key_packages = after_claim first_claim stocked }

abbrev swept_db : Db
swept_db = cleanup_expired json 1150 claimed_db

abbrev refilled_db : Db
refilled_db = (add_key_packages json "alice" "phone" packages 1160 swept_db).1

last_given : Gives (parcel "p2") (claim_each "srv_b:4" 1200 (phone ∷ []) refilled_db.key_packages).0
unfolding claim_each choose take_package select order_by update_where cleanup_expired delete_where
    add_key_packages any_row count_where add_each add_package find?
last_given = inl refl

claims_disjoint_example : (parcel "p1").package_id ≢ (parcel "p2").package_id
claims_disjoint_example =
    claims_disjoint json first_claim last_claim (parcel "p1") (parcel "p2") keyed_db refilled_db
      stocked-IsKeyed claimants_differ first_given
      (one_more (one_more none_yet (cleaned 1150 (omega arith)))
        (uploaded "alice" "phone" packages 1160))
      last_given
