-- ===== src/Prelude/Sort.antt =====
-- `ORDER BY`: insertion sort by a test for "not after", and what it keeps.
use Prim.Native.Nat.{ℕ, zero, suc}
use mathlib.Core.Path.{◌≡◌, refl}
use mathlib.Core.Logic.{inl, inr}
use mathlib.Core.Bool.{Bool, true, false}
use mathlib.Core.List.{List, [], ◌∷◌}
use native.Mathlib.Omega.{arith}
use home_assistant_chat_comp.Prelude.Tests.{if◌then◌else◌, Bool-cases}
use home_assistant_chat_comp.Prelude.Lists.{length, take, All}
use home_assistant_chat_comp.Prelude.Rows.{count_where, All-take, All-mono}

module _ {ℓ} {A : Type ℓ} (before : A → A → Bool) where
  unfoldable pub insert_row : A → List A → List A
  insert_row x [] = x ∷ []
  insert_row x (y ∷ ys) = let rest = insert_row x ys in if before x y then x ∷ y ∷ ys else y ∷ rest

  unfoldable pub order_by : List A → List A
  unfolding insert_row
  order_by [] = []
  order_by (x ∷ xs) = insert_row x (order_by xs)

  pub count_where-insert_row :
      (p : A → Bool) (x : A) (xs : List A)
      → count_where p (insert_row x xs) ≡ count_where p (x ∷ xs)
  unfolding insert_row count_where
  count_where-insert_row p x [] = refl
  count_where-insert_row p x (y ∷ ys) = ground (arith, count_where-insert_row p x ys)

  pub count_where-order_by :
      (p : A → Bool) (xs : List A) → count_where p (order_by xs) ≡ count_where p xs
  unfolding order_by count_where
  count_where-order_by p [] = refl
  count_where-order_by p (x ∷ xs) =
      ground (arith, count_where-insert_row p x (order_by xs), count_where-order_by p xs)

  pub length-insert_row : (x : A) (xs : List A) → length (insert_row x xs) ≡ suc (length xs)
  unfolding insert_row
  length-insert_row x [] = refl
  length-insert_row x (y ∷ ys) = ground (arith, length-insert_row x ys)

  pub length-order_by : (xs : List A) → length (order_by xs) ≡ length xs
  unfolding order_by
  length-order_by [] = refl
  length-order_by (x ∷ xs) = ground (arith, length-insert_row x (order_by xs), length-order_by xs)

module _ {ℓ κ} {A : Type ℓ} (P : A → Type κ) (before : A → A → Bool) where
  pub All-insert_row : (x : A) (xs : List A) → P x → All P xs → All P (insert_row before x xs)
  unfolding insert_row
  All-insert_row x [] p a = (p, tt)
  All-insert_row x (y ∷ ys) p a = elim (Bool-cases (before x y)) [
    | inl e ↦ rw e (p, a)
    | inr e ↦ rw e (a.0, All-insert_row x ys p a.1)
  ]

  pub All-order_by : (xs : List A) → All P xs → All P (order_by before xs)
  unfolding order_by
  All-order_by [] a = tt
  All-order_by (x ∷ xs) a = All-insert_row x (order_by before xs) a.0 (All-order_by xs a.1)

-- Every row stands in the relation to the rows behind it.
abbrev pub IsOrdered {ℓ κ} : {A : Type ℓ} → (A → A → Type κ) → List A → Type κ
IsOrdered R [] = Unit
IsOrdered R (x ∷ xs) = All (R x) xs × IsOrdered R xs

-- A sort by a test orders the rows by any transitive relation that the test decides one way or the
-- other.
module _ {ℓ κ} {A : Type ℓ} (R : A → A → Type κ) (before : A → A → Bool)
    (first : (x y : A) → before x y ≡ true → R x y)
    (second : (x y : A) → before x y ≡ false → R y x)
    (trans : (x y z : A) → R x y → R y z → R x z) where
  insert_row-IsOrdered :
      (x : A) (xs : List A) → IsOrdered R xs → IsOrdered R (insert_row before x xs)
  unfolding insert_row
  insert_row-IsOrdered x [] o = (tt, tt)
  insert_row-IsOrdered x (y ∷ ys) o = elim (Bool-cases (before x y)) [
    | inl e ↦ rw e ((first x y e, All-mono (R y) (R x) (λ z. trans x y z (first x y e)) ys o.0), o)
    | inr e ↦
        rw e (All-insert_row (R y) before x ys (second x y e) o.0, insert_row-IsOrdered x ys o.1)
  ]

  pub order_by-IsOrdered : (xs : List A) → IsOrdered R (order_by before xs)
  unfolding order_by
  order_by-IsOrdered [] = tt
  order_by-IsOrdered (x ∷ xs) = insert_row-IsOrdered x (order_by before xs) (order_by-IsOrdered xs)

module _ {ℓ κ} {A : Type ℓ} (R : A → A → Type κ) where
  pub take-IsOrdered : (n : ℕ) (xs : List A) → IsOrdered R xs → IsOrdered R (take n xs)
  take-IsOrdered zero xs o = tt
  take-IsOrdered (suc n) [] o = tt
  take-IsOrdered (suc n) (x ∷ xs) o = (All-take (R x) n xs o.0, take-IsOrdered n xs o.1)
