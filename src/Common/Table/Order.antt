-- ===== src/Common/Table/Order.antt =====
-- ORDER BY a signed column, and LIMIT. Rows with equal keys keep their order; SQL leaves that open.
use mathlib.Core.Logic.{inl, inr}
use mathlib.Core.List.{List, [], ◌∷◌, Perm}
use mathlib.Core.List.Perm
use Prim.Native.Nat.{ℕ, zero, suc}
use zca_desktop.Common.Tests.{if◌then◌else◌, Bool-cases}
use zca_desktop.Common.Lists.{take, drop, All}
use zca_desktop.Common.Int.{ℤ, pos, negsuc, ◌≤ℤ◌, leb_ℤ, ≤ℤ_trans, leb_ℤ→le, leb_ℤ→ge}

-- LIMIT n: a negative limit is no limit.
unfoldable pub limit_rows {ℓ} : {A : Type ℓ} → ℤ → List A → List A
limit_rows (pos n) t = take n t
limit_rows (negsuc n) t = t

-- The rows that LIMIT leaves out.
unfoldable pub beyond_limit {ℓ} : {A : Type ℓ} → ℤ → List A → List A
beyond_limit (pos n) t = drop n t
beyond_limit (negsuc n) t = []

module _ {ℓ} {A : Type ℓ} (rank : A → ℤ) where
  place : A → List A → List A
  place x [] = x ∷ []
  place x (y ∷ t) = if leb_ℤ (rank x) (rank y) then x ∷ y ∷ t else y ∷ place x t

  -- ORDER BY rank ASC
  unfoldable pub order_by : List A → List A
  unfolding place
  order_by [] = []
  order_by (x ∷ t) = place x (order_by t)

  abbrev pub IsOrdered : List A → Type 0
  IsOrdered [] = Unit
  IsOrdered (x ∷ t) = All (λ y. rank x ≤ℤ rank y) t × IsOrdered t

  place-perm : (x : A) (t : List A) → Perm (place x t) (x ∷ t)
  unfolding place
  place-perm x [] = Perm.refl _
  place-perm x (y ∷ t) = elim (Bool-cases (leb_ℤ (rank x) (rank y))) [
    | inl le ↦ rw le (Perm.refl _)
    | inr gt ↦ rw gt (Perm.trans (Perm.cons y (place-perm x t)) (Perm.swap x y t))
  ]

  -- Ordering loses no row and makes none up.
  pub order_by-perm : (t : List A) → Perm (order_by t) t
  unfolding order_by
  order_by-perm [] = Perm.refl []
  order_by-perm (x ∷ t) = Perm.trans (place-perm x (order_by t)) (Perm.cons x (order_by-perm t))

  All-le : (a b : ℤ) (t : List A) → a ≤ℤ b → All (λ y. b ≤ℤ rank y) t → All (λ y. a ≤ℤ rank y) t
  All-le a b [] h k = tt
  All-le a b (y ∷ t) h k = (≤ℤ_trans a b (rank y) h k.0, All-le a b t h k.1)

  All-place :
      (a : ℤ) (x : A) (t : List A)
      → a ≤ℤ rank x
      → All (λ y. a ≤ℤ rank y) t
      → All (λ y. a ≤ℤ rank y) (place x t)
  unfolding place
  All-place a x [] h k = (h, tt)
  All-place a x (y ∷ t) h k = elim (Bool-cases (leb_ℤ (rank x) (rank y))) [
    | inl le ↦ rw le (h, k)
    | inr gt ↦ rw gt (k.0, All-place a x t h k.1)
  ]

  place-IsOrdered : (x : A) (t : List A) → IsOrdered t → IsOrdered (place x t)
  unfolding place
  place-IsOrdered x [] o = (tt, tt)
  place-IsOrdered x (y ∷ t) o = elim (Bool-cases (leb_ℤ (rank x) (rank y))) [
    | inl le ↦
        let first = leb_ℤ→le (rank x) (rank y) le in
        rw le ((first, All-le (rank x) (rank y) t first o.0), o)
    | inr gt ↦
        rw gt (All-place (rank y) x t (leb_ℤ→ge (rank x) (rank y) gt) o.0, place-IsOrdered x t o.1)
  ]

  pub order_by-IsOrdered : (t : List A) → IsOrdered (order_by t)
  unfolding order_by
  order_by-IsOrdered [] = tt
  order_by-IsOrdered (x ∷ t) = place-IsOrdered x (order_by t) (order_by-IsOrdered t)

  All-drop :
      (a : ℤ) (n : ℕ) (t : List A) → All (λ y. a ≤ℤ rank y) t → All (λ y. a ≤ℤ rank y) (drop n t)
  All-drop a zero t h = h
  All-drop a (suc n) [] h = h
  All-drop a (suc n) (x ∷ t) h = All-drop a n t h.1

  -- In an ordered list the rows kept by a limit rank below those left out.
  pub take-le-drop :
      (n : ℕ) (t : List A)
      → IsOrdered t
      → All (λ x. All (λ y. rank x ≤ℤ rank y) (drop n t)) (take n t)
  take-le-drop zero t o = tt
  take-le-drop (suc n) [] o = tt
  take-le-drop (suc n) (x ∷ t) o = (All-drop (rank x) n t o.0, take-le-drop n t o.1)
