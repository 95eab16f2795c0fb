-- ===== src/Store/KeyPackages/Stock.antt =====
-- The stock of unclaimed key packages of a device.
use home_assistant_chat_comp.Prelude.{
  ℕ, ◌+◌, ◌≤◌, String, ◌≡◌, Bool, true, false, List, [], ◌∷◌, arith, length, count_where, eq_refl,
  inl, inr,
}
use home_assistant_chat_comp.Schema.{Db}
use home_assistant_chat_comp.Schema.Event.{Json, KeyPackage}
use home_assistant_chat_comp.Exec.{ok, err, Error, Result-cases}
use home_assistant_chat_comp.Store.KeyPackages.{
  is_available, max_packages, add_package, add_each, add_key_packages,
}

-- the number of packages of a device that are not consumed
abbrev pub stock : String → Db → ℕ
stock device_id db = count_where (is_available device_id) db.key_packages

abbrev pub one_if : Bool → ℕ
one_if true = 1
one_if false = 0

module _ (json : Json) (device_id : String) (now : ℕ) where
  add_package-stock :
      (p : KeyPackage) (added : Bool) (db db' : Db)
      → add_package json device_id now p db ≡ (ok added, db')
      → stock device_id db' ≡ stock device_id db + one_if added
  unfolding add_package count_where
  add_package-stock p added db db' h = ground (arith, eq_refl device_id)

  add_each-stock :
      (ps : List KeyPackage) (n : ℕ) (db db' : Db)
      → add_each json device_id now ps db ≡ (ok n, db')
      → (stock device_id db' ≡ stock device_id db + n) × (n ≤ length ps)
  unfolding add_each
  add_each-stock [] n db db' h = ground arith
  add_each-stock (p ∷ ps) n db db' h = elim (Result-cases (add_package json device_id now p db)) [
    | inr (e, mid, stopped) ↦ ground arith
    | inl (added, mid, first) ↦ elim (Result-cases (add_each json device_id now ps mid)) [
      | inr (e, last, stopped) ↦ ground arith
      | inl (m, last, rest) ↦
          ground (arith, add_package-stock p added db mid first, add_each-stock ps m mid last rest)
    ]
  ]

  -- An upload that succeeds raises the stock of the device by the number that it returns, which is at
  -- most the number of packages, and the stock stays within 100.
  pub add_key_packages-stock :
      (account_id : String) (ps : List KeyPackage) (n : ℕ) (db db' : Db)
      → add_key_packages json account_id device_id ps now db ≡ (ok n, db')
      → (stock device_id db' ≡ stock device_id db + n)
        × (n ≤ length ps)
        × (stock device_id db' ≤ max_packages)
  unfolding add_key_packages
  add_key_packages-stock account_id ps n db db' h =
      elim (Result-cases (add_each json device_id now ps db)) [
        | inr (e, last, stopped) ↦ absurd (ground arith)
        | inl (m, last, done) ↦ ground (arith, add_each-stock ps m db last done)
      ]

  -- An upload that raises changes nothing, also not by packages that were added before the error.
  add_key_packages_atomic :
      (account_id : String) (ps : List KeyPackage) (e : Error) (db db' : Db)
      → add_key_packages json account_id device_id ps now db ≡ (err e, db')
      → db' ≡ db
  unfolding add_key_packages
  add_key_packages_atomic account_id ps e db db' h = ground arith
