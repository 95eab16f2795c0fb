-- ===== src/Store/KeyPackages/Claims.antt =====
-- Who holds a key package, and since when: what a claim gives and what it leaves.
use mathlib.Core.Path.{subst}
use home_assistant_chat_comp.Prelude.{
  ℕ, String, ◌≡◌, refl, ◌∙◌, Bool, true, Option, none, some, List, [], ◌∷◌, arith, find?,
  find?-update, select, order_by, All, All-select, All-order_by, All-both, All-update-All,
  select-All, ap, update_where, eq_iff, eq_refl, Option-cases, inl, inr, ◌⊎◌, if◌then◌else◌,
}
use home_assistant_chat_comp.Schema.{DeviceRow, KeyPackageRow}
use home_assistant_chat_comp.Store.KeyPackages.{
  is_package, is_claimed, is_free, package_before, first_row, coalesce, reserve, choose,
  take_package, claim_each,
}

-- the claimant that holds a package
abbrev pub holder : String → List KeyPackageRow → Option String
holder id rows = elim (find? (is_package id) rows) [ none ↦ none | some k ↦ k.claimed_by ]

-- the time at which a package was used first
abbrev pub used : String → List KeyPackageRow → Option ℕ
used id rows = elim (find? (is_package id) rows) [ none ↦ none | some k ↦ k.consumed_at ]

-- the time of the first use of a package that is given now
abbrev pub used_at : ℕ → KeyPackageRow → ℕ
used_at now k = elim k.consumed_at [ none ↦ now | some t ↦ t ]

-- Each row is the one that its id, the primary key, finds.
abbrev pub IsKeyed : List KeyPackageRow → Type 0
IsKeyed rows = All (λ (k : KeyPackageRow). find? (is_package k.package_id) rows ≡ some k) rows

find?-reserve :
    (id other claimant : String) (now : ℕ) (rows : List KeyPackageRow)
    → find? (is_package other) (update_where (is_package id) (reserve claimant now) rows)
      ≡ elim (find? (is_package other) rows) [
        | none ↦ none
        | some k ↦ some (if is_package id k then reserve claimant now k else k)
      ]
find?-reserve id other claimant now rows =
    find?-update (is_package other) (is_package id) (reserve claimant now) rows (λ k. refl)

module _ (claimant : String) (now : ℕ) where
  -- A package that is held stays with its holder.
  take_package-holder :
      (chosen : Option KeyPackageRow) (id c : String) (rows : List KeyPackageRow)
      → holder id rows ≡ some c
      → holder id (take_package claimant now chosen rows) ≡ some c
  unfolding take_package
  take_package-holder none id c rows h = h
  take_package-holder (some k) id c rows h =
      ground (arith, find?-reserve k.package_id id claimant now rows)

  take_package-used :
      (chosen : Option KeyPackageRow) (id : String) (t : ℕ) (rows : List KeyPackageRow)
      → used id rows ≡ some t
      → used id (take_package claimant now chosen rows) ≡ some t
  unfolding take_package
  take_package-used none id t rows h = h
  take_package-used (some k) id t rows h =
      ground (arith, find?-reserve k.package_id id claimant now rows)

  pub claim_each-used :
      (ds : List DeviceRow) (id : String) (t : ℕ) (rows : List KeyPackageRow)
      → used id rows ≡ some t
      → used id (claim_each claimant now ds rows).1 ≡ some t
  unfolding claim_each
  claim_each-used [] id t rows h = h
  claim_each-used (d ∷ ds) id t rows h =
      let chosen = choose d.id claimant rows in
      claim_each-used ds id t (take_package claimant now chosen rows)
        (take_package-used chosen id t rows h)

  pub claim_each-holder :
      (ds : List DeviceRow) (id c : String) (rows : List KeyPackageRow)
      → holder id rows ≡ some c
      → holder id (claim_each claimant now ds rows).1 ≡ some c
  unfolding claim_each
  claim_each-holder [] id c rows h = h
  claim_each-holder (d ∷ ds) id c rows h =
      let chosen = choose d.id claimant rows in
      claim_each-holder ds id c (take_package claimant now chosen rows)
        (take_package-holder chosen id c rows h)

first_row-All :
    (P : KeyPackageRow → Type 0) (xs : List KeyPackageRow) (k : KeyPackageRow)
    → All P xs
    → first_row xs ≡ some k
    → P k
first_row-All P [] k a h = cc
first_row-All P (x ∷ xs) k a h = let e : x ≡ k = ground arith in subst P e a.0

-- the rows of a query by a test, sorted, with the test
queried :
    (P : KeyPackageRow → Type 0) (p : KeyPackageRow → Bool) (rows : List KeyPackageRow)
    → All P rows
    → All (λ k. P k × (p k ≡ true)) (order_by package_before (select p rows))
queried P p rows a =
    All-order_by (λ k. P k × (p k ≡ true)) package_before (select p rows)
      (All-both P (λ k. p k ≡ true) (select p rows) (All-select P p rows a) (select-All p rows))

-- What a choice is: a row of the table that the claimant holds or can come to hold.
abbrev IsChoice : String → List KeyPackageRow → KeyPackageRow → Type 0
IsChoice claimant rows k =
    (find? (is_package k.package_id) rows ≡ some k)
    × (coalesce k.claimed_by claimant ≡ some claimant)

-- the packages that the claimant was given now are the claimant's, and used
abbrev pub IsGiven : String → ℕ → List KeyPackageRow → DeviceRow × Option KeyPackageRow → Type 0
IsGiven claimant now rows (d, none) = Unit
IsGiven claimant now rows (d, some k) =
    (holder k.package_id rows ≡ some claimant) × (used k.package_id rows ≡ some (used_at now k))

module _ (claimant : String) (now : ℕ) where
  choose-IsChoice :
      (device_id : String) (rows : List KeyPackageRow) (k : KeyPackageRow)
      → IsKeyed rows
      → choose device_id claimant rows ≡ some k
      → IsChoice claimant rows k
  unfolding choose
  choose-IsChoice device_id rows k keyed h =
      let own = is_claimed device_id claimant in
      let P = λ (k : KeyPackageRow). find? (is_package k.package_id) rows ≡ some k in
      elim (Option-cases (first_row (order_by package_before (select own rows)))) [
        | inl no_own ↦
            let f =
              first_row-All (λ k. P k × (is_free device_id k ≡ true))
                (order_by package_before (select (is_free device_id) rows)) k
                (queried P (is_free device_id) rows keyed) (ground arith) in
            (f.0, ground arith)
        | inr (k', found) ↦
            let e : k' ≡ k = ground arith in
            let f =
              first_row-All (λ k. P k × (own k ≡ true)) (order_by package_before (select own rows))
                k (queried P own rows keyed) (found ∙ ap (λ x. some x) e) in
            (f.0, held k claimant f.1)
      ]
    where
      held :
          (k : KeyPackageRow) (c : String)
          → is_claimed device_id c k ≡ true
          → coalesce k.claimed_by c ≡ some c
      held k c h = elim (Option-cases k.claimed_by) [
        | inl free ↦ ground arith
        | inr (b, e) ↦ ground (arith, eq_iff b c)
      ]

  -- A chosen package is held by the claimant.
  take_package-chosen :
      (d : DeviceRow) (k : KeyPackageRow) (rows : List KeyPackageRow)
      → IsChoice claimant rows k
      → IsGiven claimant now (take_package claimant now (some k) rows) (d, some k)
  unfolding take_package
  take_package-chosen d k rows h =
      ground
        (arith, find?-reserve k.package_id k.package_id claimant now rows, eq_refl k.package_id)

  take_package-IsKeyed :
      (chosen : Option KeyPackageRow) (rows : List KeyPackageRow)
      → IsKeyed rows
      → IsKeyed (take_package claimant now chosen rows)
  unfolding take_package
  take_package-IsKeyed none rows h = h
  take_package-IsKeyed (some c) rows h =
      All-update-All (λ k. find? (is_package k.package_id) rows ≡ some k)
        (λ k.
          find? (is_package k.package_id)
            (update_where (is_package c.package_id) (reserve claimant now) rows)
          ≡ some k)
        (is_package c.package_id) (reserve claimant now)
        (λ k e. ground (arith, find?-reserve c.package_id k.package_id claimant now rows)) rows h

  -- Every package that a claim chooses is held by the claimant afterwards.
  pub claim_each-IsGiven :
      (ds : List DeviceRow) (rows : List KeyPackageRow)
      → IsKeyed rows
      → let (chosen, rows') = claim_each claimant now ds rows in
        All (IsGiven claimant now rows') chosen
  unfolding claim_each
  claim_each-IsGiven [] rows keyed = tt
  claim_each-IsGiven (d ∷ ds) rows keyed =
      let chosen = choose d.id claimant rows in
      let rows' = take_package claimant now chosen rows in
      (given chosen refl, claim_each-IsGiven ds rows' (take_package-IsKeyed chosen rows keyed))
    where
      given :
          (c : Option KeyPackageRow)
          → choose d.id claimant rows ≡ c
          → IsGiven claimant now
              (claim_each claimant now ds (take_package claimant now c rows)).1
              (d, c)
      given none e = tt
      given (some k) e =
          let took = take_package-chosen d k rows (choose-IsChoice d.id rows k keyed e) in
          let rows' = take_package claimant now (some k) rows in
          (
            claim_each-holder claimant now ds k.package_id claimant rows' took.0,
            claim_each-used claimant now ds k.package_id (used_at now k) rows' took.1,
          )

-- A claim, of some devices by a claimant at a time.
pub record Claim : Type 0 where
  pub claimant : String
  pub now : ℕ
  pub devices : List DeviceRow

abbrev pub after_claim : Claim → List KeyPackageRow → List KeyPackageRow
after_claim c rows = (claim_each c.claimant c.now c.devices rows).1

-- the package is among those that a claim has chosen
abbrev pub Gives : KeyPackageRow → List (DeviceRow × Option KeyPackageRow) → Type 0
Gives k [] = ⊥
Gives k ((_, none) ∷ rest) = Gives k rest
Gives k ((_, some k') ∷ rest) = (k' ≡ k) ⊎ Gives k rest

pub Gives-IsGiven :
    (claimant : String) (now : ℕ) (k : KeyPackageRow)
    (chosen : List (DeviceRow × Option KeyPackageRow)) (rows : List KeyPackageRow)
    → All (IsGiven claimant now rows) chosen
    → Gives k chosen
    → (holder k.package_id rows ≡ some claimant) × (used k.package_id rows ≡ some (used_at now k))
Gives-IsGiven claimant now k [] rows a g = absurd g
Gives-IsGiven claimant now k ((_, none) ∷ rest) rows a g =
    Gives-IsGiven claimant now k rest rows a.1 g
Gives-IsGiven claimant now k ((d, some k') ∷ rest) rows a (inl e) =
    subst (λ (x : KeyPackageRow). IsGiven claimant now rows (d, some x)) e a.0
Gives-IsGiven claimant now k ((_, some k') ∷ rest) rows a (inr g) =
    Gives-IsGiven claimant now k rest rows a.1 g

pub claim_each-IsKeyed :
    (claimant : String) (now : ℕ) (ds : List DeviceRow) (rows : List KeyPackageRow)
    → IsKeyed rows
    → IsKeyed (claim_each claimant now ds rows).1
unfolding claim_each
claim_each-IsKeyed claimant now [] rows h = h
claim_each-IsKeyed claimant now (d ∷ ds) rows h =
    claim_each-IsKeyed claimant now ds (take_package claimant now (choose d.id claimant rows) rows)
      (take_package-IsKeyed claimant now (choose d.id claimant rows) rows h)
