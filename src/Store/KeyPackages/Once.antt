-- ===== src/Store/KeyPackages/Once.antt =====
-- A key package is used for one claimant, through claims, uploads and cleanups.
use home_assistant_chat_comp.Prelude.{
  ℕ, ◌+◌, ◌<◌, String, ◌≡◌, ◌≢◌, sym, ◌∙◌, ap, Bool, false, none, some, List, [], ◌∷◌, arith, find?,
  All, All-mono, eq_iff, eq_refl, Option-cases, Bool-cases, inl, inr, delete_where,
}
use home_assistant_chat_comp.Protocol.{message_ttl_seconds}
use home_assistant_chat_comp.Schema.{Db, KeyPackageRow}
use home_assistant_chat_comp.Schema.Event.{Json, KeyPackage}
use home_assistant_chat_comp.Store.Cleanup.{cleanup_expired, is_spent}
use home_assistant_chat_comp.Store.Devices.{identity_devices}
use home_assistant_chat_comp.Store.KeyPackages.{
  is_package, package_row, add_package, add_each, add_key_packages, claim_each,
  claim_device_packages,
}
use home_assistant_chat_comp.Store.KeyPackages.Claims.{
  holder, used, used_at, IsKeyed, Claim, after_claim, Gives, Gives-IsGiven, claim_each-holder,
  claim_each-used, claim_each-IsGiven, claim_each-IsKeyed,
}

-- A call that touches the key packages: a claim, an upload, or the cleanup, which other calls of the
-- store begin with, at a time before `until`.
pub data KeyCall (json : Json) (until : ℕ) (db : Db) : Db → Type 0 where
  claimed :
      (identity : ℕ) (claimant : String) (now : ℕ)
      → KeyCall json until db (claim_device_packages json identity claimant now db).1
  uploaded :
      (account_id device_id : String) (packages : List KeyPackage) (now : ℕ)
      → KeyCall json until db (add_key_packages json account_id device_id packages now db).1
  cleaned : (now : ℕ) → now < until → KeyCall json until db (cleanup_expired json now db)

-- such calls in a row
pub data KeyRuns (json : Json) (until : ℕ) (db : Db) : Db → Type 0 where
  none_yet : KeyRuns json until db db
  one_more :
      {db' db'' : Db}
      → KeyRuns json until db db'
      → KeyCall json until db' db''
      → KeyRuns json until db db''

-- The package is the claimant's since the time t, and each row is the one that its id finds.
record IsUsed (id c : String) (t : ℕ) (rows : List KeyPackageRow) : Type 0 where
  holds : holder id rows ≡ some c
  since : used id rows ≡ some t
  keyed : IsKeyed rows

find?-kept :
    (id : String) (q : KeyPackageRow → Bool) (k : KeyPackageRow) (rows : List KeyPackageRow)
    → find? (is_package id) rows ≡ some k
    → q k ≡ false
    → find? (is_package id) (delete_where q rows) ≡ some k
unfolding find? delete_where
find?-kept id q k [] h e = h
find?-kept id q k (r ∷ rows) h e = elim (Bool-cases (is_package id r)) [
  | inl hit ↦ ground arith
  | inr miss ↦ ground (arith, find?-kept id q k rows)
]

All-kept :
    (P Q : KeyPackageRow → Type 0) (q : KeyPackageRow → Bool)
    → ((k : KeyPackageRow) → P k → q k ≡ false → Q k)
    → (rows : List KeyPackageRow) → All P rows
    → All Q (delete_where q rows)
unfolding delete_where
All-kept P Q q f [] a = tt
All-kept P Q q f (r ∷ rows) a = elim (Bool-cases (q r)) [
  | inl gone ↦ rw gone (All-kept P Q q f rows a.1)
  | inr stays ↦ rw stays (f r a.0 stays, All-kept P Q q f rows a.1)
]

delete-IsKeyed :
    (q : KeyPackageRow → Bool) (rows : List KeyPackageRow)
    → IsKeyed rows
    → IsKeyed (delete_where q rows)
delete-IsKeyed q rows h =
    All-kept (λ k. find? (is_package k.package_id) rows ≡ some k)
      (λ k. find? (is_package k.package_id) (delete_where q rows) ≡ some k) q
      (λ k e stays. find?-kept k.package_id q k rows e stays) rows h

-- The cleanup leaves a package that was used less than 30 days before.
cleanup-IsUsed :
    (id c : String) (t now : ℕ) (rows : List KeyPackageRow)
    → now < t + message_ttl_seconds
    → IsUsed id c t rows
    → IsUsed id c t (delete_where (is_spent now) rows)
cleanup-IsUsed id c t now rows young u = elim (Option-cases (find? (is_package id) rows)) [
  | inl gone ↦ absurd (let h = u.holds in ground arith)
  | inr (k, found) ↦
      let time : k.consumed_at ≡ some t = let h = u.since in ground arith in
      let stays : is_spent now k ≡ false = ground arith in
      let kept = find?-kept id (is_spent now) k rows found stays in
      record {
        holds = let h = u.holds in ground arith;
        since = ground arith;
        keyed = delete-IsKeyed (is_spent now) rows u.keyed;
      }
]

-- A package is added under an id that no package has.
add-IsUsed :
    (id c : String) (t : ℕ) (new : KeyPackageRow) (rows : List KeyPackageRow)
    → find? (is_package new.package_id) rows ≡ none
    → IsUsed id c t rows
    → IsUsed id c t (new ∷ rows)
unfolding find?
add-IsUsed id c t new rows fresh u = record {
  holds = let h = u.holds in ground (arith, eq_iff new.package_id id);
  since = let h = u.since in ground (arith, eq_iff new.package_id id);
  keyed = (
    ground (arith, eq_refl new.package_id),
    All-mono (λ (k : KeyPackageRow). find? (is_package k.package_id) rows ≡ some k)
        (λ (k : KeyPackageRow). find? (is_package k.package_id) (new ∷ rows) ≡ some k)
        (λ k e. ground (arith, eq_iff new.package_id k.package_id)) rows u.keyed,
  );
}

module _ (json : Json) (id c : String) (t : ℕ) where
  add_package-IsUsed :
      (device : String) (now : ℕ) (p : KeyPackage) (db : Db)
      → IsUsed id c t db.key_packages
      → IsUsed id c t (add_package json device now p db).1.key_packages
  unfolding add_package
  add_package-IsUsed device now p db u =
      elim (Option-cases (find? (is_package p.package_id) db.key_packages)) [
        | inl fresh ↦
            ground
              (arith, add-IsUsed id c t (package_row json device now p) db.key_packages fresh u)
        | inr (k, found) ↦ ground arith
      ]

  add_each-IsUsed :
      (device : String) (now : ℕ) (ps : List KeyPackage) (db : Db)
      → IsUsed id c t db.key_packages
      → IsUsed id c t (add_each json device now ps db).1.key_packages
  unfolding add_each
  add_each-IsUsed device now [] db u = ground arith
  add_each-IsUsed device now (p ∷ ps) db u = ground (
    arith,
    add_package-IsUsed device now p db u,
    add_each-IsUsed device now ps (add_package json device now p db).1,
  )

  claim-IsUsed :
      (identity : ℕ) (claimant : String) (now : ℕ) (db : Db)
      → IsUsed id c t db.key_packages
      → IsUsed id c t (claim_each claimant now (identity_devices identity db) db.key_packages).1
  claim-IsUsed identity claimant now db u = record {
    holds =
        claim_each-holder claimant now (identity_devices identity db) id c db.key_packages u.holds;
    since =
        claim_each-used claimant now (identity_devices identity db) id t db.key_packages u.since;
    keyed = claim_each-IsKeyed claimant now (identity_devices identity db) db.key_packages u.keyed;
  }

  KeyCall-IsUsed :
      {db db' : Db}
      → KeyCall json (t + message_ttl_seconds) db db'
      → IsUsed id c t db.key_packages
      → IsUsed id c t db'.key_packages
  unfolding claim_device_packages add_key_packages cleanup_expired
  KeyCall-IsUsed {db} (claimed identity claimant now) u =
      ground (arith, claim-IsUsed identity claimant now db u)
  KeyCall-IsUsed {db} (uploaded account device packages now) u =
      ground (arith, add_each-IsUsed device now packages db u)
  KeyCall-IsUsed {db} (cleaned now young) u = cleanup-IsUsed id c t now db.key_packages young u

  KeyRuns-IsUsed :
      {db db' : Db}
      → KeyRuns json (t + message_ttl_seconds) db db'
      → IsUsed id c t db.key_packages
      → IsUsed id c t db'.key_packages
  KeyRuns-IsUsed none_yet u = u
  KeyRuns-IsUsed (one_more r call) u = KeyCall-IsUsed call (KeyRuns-IsUsed r u)

some_eq : (a b : String) → some a ≡ some b → a ≡ b
some_eq a b h = ground arith

-- In a table in which each row is the one that its id finds, a key package that one claim has given is
-- not among those that a later claim of another claimant gives, whatever claims, uploads and
-- cleanups come in between, the cleanups less than 30 days after the first use of the package.
pub claims_disjoint :
    (json : Json) (first last : Claim) (k l : KeyPackageRow) (db db' : Db)
    → IsKeyed db.key_packages
    → first.claimant ≢ last.claimant
    → Gives k (claim_each first.claimant first.now first.devices db.key_packages).0
    → KeyRuns json
        (used_at first.now k + message_ttl_seconds)
        (record db { key_packages = after_claim first db.key_packages })
        db'
    → Gives l (claim_each last.claimant last.now last.devices db'.key_packages).0
    → k.package_id ≢ l.package_id
claims_disjoint json first last k l db db' unique differ gk between gl e =
    let given =
      Gives-IsGiven first.claimant first.now k _ _
        (claim_each-IsGiven first.claimant first.now first.devices db.key_packages unique) gk in
    let u = KeyRuns-IsUsed json k.package_id first.claimant (used_at first.now k) between (record {
      holds = given.0;
      since = given.1;
      keyed = claim_each-IsKeyed first.claimant first.now first.devices db.key_packages unique;
    }) in
    let kept =
      claim_each-holder last.claimant last.now last.devices k.package_id first.claimant
        db'.key_packages u.holds in
    let theirs =
      Gives-IsGiven last.claimant last.now l _ _
        (claim_each-IsGiven last.claimant last.now last.devices db'.key_packages u.keyed) gl in
    differ (
      some_eq first.claimant last.claimant
        (sym kept ∙ ap (λ (i : String). holder i (after_claim last db'.key_packages)) e ∙ theirs.0))
