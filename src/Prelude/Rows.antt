-- ===== src/Prelude/Rows.antt =====
-- The SQL statements that the store issues, over a table held as a list of its rows. A statement
-- that reads one row (`fetchone`) takes the first row that fits.
use Prim.Native.Nat.{ℕ, zero, suc, ◌≤◌, ◌<◌}
use mathlib.Core.Path.{◌≡◌, refl, subst}
use mathlib.Core.Logic.{inl, inr}
use mathlib.Core.Bool.{Bool, true, false}
use mathlib.Core.Option.{Option, none, some}
use mathlib.Core.List.{List, [], ◌∷◌}
use native.Mathlib.Omega.{arith}
use home_assistant_chat_comp.Prelude.Tests.{if◌then◌else◌, Bool-cases}
use home_assistant_chat_comp.Prelude.Lists.{length, take, All}

module _ {ℓ} {A : Type ℓ} where
  -- `SELECT ... WHERE p`, one row
  unfoldable pub find? : (A → Bool) → List A → Option A
  find? p [] = none
  find? p (x ∷ xs) = if p x then some x else find? p xs

  -- `SELECT ... WHERE p`, all rows
  unfoldable pub select : (A → Bool) → List A → List A
  select p [] = []
  select p (x ∷ xs) = let rest = select p xs in if p x then x ∷ rest else rest

  -- `SELECT count(*) ... WHERE p`; also the row count of an `UPDATE ... WHERE p`
  unfoldable pub count_where : (A → Bool) → List A → ℕ
  count_where p [] = 0
  count_where p (x ∷ xs) = let rest = count_where p xs in if p x then suc rest else rest

  -- whether some row fits
  unfoldable pub any_row : (A → Bool) → List A → Bool
  any_row p [] = false
  any_row p (x ∷ xs) = if p x then true else any_row p xs

  -- `DELETE ... WHERE p`
  unfoldable pub delete_where : (A → Bool) → List A → List A
  delete_where p [] = []
  delete_where p (x ∷ xs) = let rest = delete_where p xs in if p x then rest else x ∷ rest

  -- `UPDATE ... SET f WHERE p`
  unfoldable pub update_where : (A → Bool) → (A → A) → List A → List A
  update_where p f [] = []
  update_where p f (x ∷ xs) = (if p x then f x else x) ∷ update_where p f xs

  pub find?-sound : (p : A → Bool) (xs : List A) (x : A) → find? p xs ≡ some x → p x ≡ true
  unfolding find?
  find?-sound p [] x h = ground arith
  find?-sound p (y ∷ xs) x h = ground (arith, find?-sound p xs x)

  -- the same as one equation, which `ground` splits
  pub find?-hits :
      (p : A → Bool) (xs : List A) → elim (find? p xs) [ none ↦ true | some x ↦ p x ] ≡ true
  unfolding find?
  find?-hits p [] = refl
  find?-hits p (y ∷ xs) = ground (arith, find?-hits p xs)

  pub find?-cons_ne :
      (p : A → Bool) (y : A) (xs : List A) → p y ≡ false → find? p (y ∷ xs) ≡ find? p xs
  unfolding find?
  find?-cons_ne p y xs h = ground arith

  -- A row that a deletion spares is still found.
  pub find?-delete :
      (p q : A → Bool) (xs : List A)
      → ((x : A) → p x ≡ true → q x ≡ false)
      → find? p (delete_where q xs) ≡ find? p xs
  unfolding find? delete_where
  find?-delete p q [] h = refl
  find?-delete p q (y ∷ xs) h = ground (arith, h y, find?-delete p q xs h)

  -- A row that a deletion hits is gone.
  pub find?-delete_self :
      (p q : A → Bool) (xs : List A)
      → ((x : A) → p x ≡ true → q x ≡ true)
      → find? p (delete_where q xs) ≡ none
  unfolding find? delete_where
  find?-delete_self p q [] h = refl
  find?-delete_self p q (y ∷ xs) h = ground (arith, h y, find?-delete_self p q xs h)

  -- A deletion finds nothing new.
  pub find?-delete_none :
      (p q : A → Bool) (xs : List A) → find? p xs ≡ none → find? p (delete_where q xs) ≡ none
  unfolding find? delete_where
  find?-delete_none p q [] h = refl
  find?-delete_none p q (y ∷ xs) h = ground (arith, find?-delete_none p q xs)

  -- An update that keeps the key of the search keeps what is found, up to the update.
  pub find?-update :
      (p q : A → Bool) (f : A → A) (xs : List A)
      → ((x : A) → p (f x) ≡ p x)
      → find? p (update_where q f xs)
        ≡ elim (find? p xs) [ none ↦ none | some x ↦ some (if q x then f x else x) ]
  unfolding find? update_where
  find?-update p q f [] h = refl
  find?-update p q f (y ∷ xs) h = ground (arith, h y, find?-update p q f xs h)

  pub any_row-find? : (p : A → Bool) (xs : List A) → any_row p xs ≡ false → find? p xs ≡ none
  unfolding find? any_row
  any_row-find? p [] h = refl
  any_row-find? p (y ∷ xs) h = ground (arith, any_row-find? p xs)

  pub find?-any_row :
      (p : A → Bool) (xs : List A) (x : A) → find? p xs ≡ some x → any_row p xs ≡ true
  unfolding find? any_row
  find?-any_row p [] x h = ground arith
  find?-any_row p (y ∷ xs) x h = ground (arith, find?-any_row p xs x)

  pub find?-no_row : (p : A → Bool) (xs : List A) → find? p xs ≡ none → any_row p xs ≡ false
  unfolding find? any_row
  find?-no_row p [] h = refl
  find?-no_row p (y ∷ xs) h = ground (arith, find?-no_row p xs)

  pub any_row-delete :
      (p q : A → Bool) (xs : List A)
      → ((x : A) → p x ≡ true → q x ≡ false)
      → any_row p (delete_where q xs) ≡ any_row p xs
  unfolding any_row delete_where
  any_row-delete p q [] h = refl
  any_row-delete p q (y ∷ xs) h = ground (arith, h y, any_row-delete p q xs h)

  pub any_row_mono :
      (p q : A → Bool) (xs : List A)
      → ((x : A) → p x ≡ true → q x ≡ true)
      → any_row p xs ≡ true
      → any_row q xs ≡ true
  unfolding any_row
  any_row_mono p q [] h a = cc
  any_row_mono p q (y ∷ xs) h a = ground (arith, h y, any_row_mono p q xs h)

  pub length-delete-le : (q : A → Bool) (xs : List A) → length (delete_where q xs) ≤ length xs
  unfolding delete_where
  length-delete-le q [] = omega arith
  length-delete-le q (y ∷ xs) = ground (arith, length-delete-le q xs)

  pub length-delete-lt :
      (q : A → Bool) (xs : List A) → any_row q xs ≡ true → length (delete_where q xs) < length xs
  unfolding any_row delete_where
  length-delete-lt q [] h = cc
  length-delete-lt q (y ∷ xs) h = ground (arith, length-delete-le q xs, length-delete-lt q xs)

  pub count_where-delete :
      (p q : A → Bool) (xs : List A) → count_where p (delete_where q xs) ≤ count_where p xs
  unfolding count_where delete_where
  count_where-delete p q [] = omega arith
  count_where-delete p q (y ∷ xs) = ground (arith, count_where-delete p q xs)

  -- An update after which no row fits that did not fit before.
  pub count_where-update :
      (p q : A → Bool) (f : A → A) (xs : List A)
      → ((x : A) → p (f x) ≡ true → p x ≡ true)
      → count_where p (update_where q f xs) ≤ count_where p xs
  unfolding count_where update_where
  count_where-update p q f [] h = omega arith
  count_where-update p q f (y ∷ xs) h = ground (arith, h y, count_where-update p q f xs h)

  -- No row fits after an update that makes every row unfit.
  pub count_where-update_none :
      (p q : A → Bool) (f : A → A) (xs : List A)
      → ((x : A) → p (if q x then f x else x) ≡ false)
      → count_where p (update_where q f xs) ≡ 0
  unfolding count_where update_where
  count_where-update_none p q f [] h = refl
  count_where-update_none p q f (y ∷ xs) h = ground (arith, h y, count_where-update_none p q f xs h)

  pub count_where-select : (p : A → Bool) (xs : List A) → length (select p xs) ≡ count_where p xs
  unfolding count_where select
  count_where-select p [] = refl
  count_where-select p (y ∷ xs) = ground (arith, count_where-select p xs)

module _ {ℓ κ} {A : Type ℓ} (P : A → Type κ) where
  pub find?-All : (p : A → Bool) (xs : List A) (x : A) → All P xs → find? p xs ≡ some x → P x
  unfolding find?
  find?-All p [] x a h = cc
  find?-All p (y ∷ xs) x a h = elim (Bool-cases (p y)) [
    | inl hit ↦ let e : y ≡ x = ground arith in subst P e a.0
    | inr miss ↦ find?-All p xs x a.1 (rw miss at h)
  ]

  pub All-delete : (q : A → Bool) (xs : List A) → All P xs → All P (delete_where q xs)
  unfolding delete_where
  All-delete q [] a = tt
  All-delete q (y ∷ xs) a = elim (Bool-cases (q y)) [
    | inl hit ↦ rw hit (All-delete q xs a.1)
    | inr miss ↦ rw miss (a.0, All-delete q xs a.1)
  ]

  pub All-select : (q : A → Bool) (xs : List A) → All P xs → All P (select q xs)
  unfolding select
  All-select q [] a = tt
  All-select q (y ∷ xs) a = elim (Bool-cases (q y)) [
    | inl hit ↦ rw hit (a.0, All-select q xs a.1)
    | inr miss ↦ rw miss (All-select q xs a.1)
  ]

  pub All-update :
      (q : A → Bool) (f : A → A) (xs : List A)
      → ((x : A) → P x → q x ≡ true → P (f x))
      → All P xs
      → All P (update_where q f xs)
  unfolding update_where
  All-update q f [] h a = tt
  All-update q f (y ∷ xs) h a = elim (Bool-cases (q y)) [
    | inl hit ↦ rw hit (h y a.0 hit, All-update q f xs h a.1)
    | inr miss ↦ rw miss (a.0, All-update q f xs h a.1)
  ]

  pub All-take : (n : ℕ) (xs : List A) → All P xs → All P (take n xs)
  All-take zero xs a = tt
  All-take (suc n) [] a = tt
  All-take (suc n) (y ∷ xs) a = (a.0, All-take n xs a.1)

  pub All-mono {ℓ'} :
      (Q : A → Type ℓ') → ((x : A) → P x → Q x) → (xs : List A) → All P xs → All Q xs
  All-mono Q h [] a = tt
  All-mono Q h (x ∷ xs) a = (h x a.0, All-mono Q h xs a.1)

module _ {ℓ κ ι} {A : Type ℓ} (P : A → Type κ) (Q : A → Type ι) where
  pub All-both : (xs : List A) → All P xs → All Q xs → All (λ x. P x × Q x) xs
  All-both [] a b = tt
  All-both (x ∷ xs) a b = ((a.0, b.0), All-both xs a.1 b.1)

  -- An update that takes every row from one property to another.
  pub All-update-All :
      (q : A → Bool) (f : A → A)
      → ((x : A) → P x → Q (if q x then f x else x))
      → (xs : List A) → All P xs
      → All Q (update_where q f xs)
  unfolding update_where
  All-update-All q f h [] a = tt
  All-update-All q f h (x ∷ xs) a = (h x a.0, All-update-All q f h xs a.1)

pub select-All {ℓ} : {A : Type ℓ} (p : A → Bool) (xs : List A) → All (λ x. p x ≡ true) (select p xs)
unfolding select
select-All p [] = tt
select-All p (x ∷ xs) = elim (Bool-cases (p x)) [
  | inl e ↦ rw e (e, select-All p xs)
  | inr e ↦ rw e (select-All p xs)
]
