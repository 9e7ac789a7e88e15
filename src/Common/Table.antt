-- ===== src/Common/Table.antt =====
-- Tables of keyed rows in insertion order, and the SQL statements that the stores run on them:
-- INSERT … ON CONFLICT, UPDATE and DELETE by key, SELECT … ORDER BY … LIMIT.
pub mod Order
pub mod Selecting
use mathlib.Core.Path.{◌≡◌, refl, ap}
use mathlib.Core.Bool.{Bool, true, false, ◌||◌}
use mathlib.Core.Logic.{inl, inr, ◌≢◌}
use mathlib.Core.List.{List, [], ◌∷◌, map}
use mathlib.Core.Option.{Option, none, some}
use native.Mathlib.Omega.{arith}
use Prim.Native.Nat.{ℕ, suc, ◌+◌}
use zca_desktop.Common.Tests.{if◌then◌else◌, Bool-cases, map_option, is_some}
use zca_desktop.Common.Keys.{Equality, ◌==◌, eq_of_==, ==_refl, ==_of_ne}
use zca_desktop.Common.Lists.{length, any}

-- The row that an upsert leaves under its key.
abbrev pub merged {ℓ} : {A : Type ℓ} → A → (A → A) → Option A → A
merged r f none = r
merged r f (some x) = f x

module _ {ℓ κ} {K : Type κ} ⦃e : Equality K⦄ {A : Type ℓ} (key : A → K) where
  -- SELECT … WHERE key = k
  unfoldable pub find : K → List A → Option A
  find k [] = none
  find k (x ∷ t) = if key x == k then some x else find k t

  -- INSERT … ON CONFLICT(key) DO NOTHING
  unfoldable pub insert_or_ignore : A → List A → List A
  insert_or_ignore r [] = r ∷ []
  insert_or_ignore r (x ∷ t) = if key x == key r then x ∷ t else x ∷ insert_or_ignore r t

  -- INSERT … ON CONFLICT(key) DO UPDATE
  unfoldable pub upsert : A → (A → A) → List A → List A
  upsert r f [] = r ∷ []
  upsert r f (x ∷ t) = if key x == key r then f x ∷ t else x ∷ upsert r f t

  -- UPDATE … WHERE key = k
  unfoldable pub update : K → (A → A) → List A → List A
  update k f [] = []
  update k f (x ∷ t) = (if key x == k then f x else x) ∷ update k f t

  -- DELETE … WHERE key = k
  unfoldable pub delete : K → List A → List A
  delete k [] = []
  delete k (x ∷ t) = let rest = delete k t in if key x == k then rest else x ∷ rest

  -- The primary key: no key stands on two rows.
  abbrev pub HasUniqueKeys : List A → Type ℓ
  HasUniqueKeys [] = Unit
  HasUniqueKeys (x ∷ t) = (find (key x) t ≡ none) × HasUniqueKeys t

  pub find-key : (k : K) (t : List A) {x : A} → find k t ≡ some x → key x ≡ k
  unfolding find
  find-key k [] h = absurd (cc h)
  find-key k (y ∷ t) {x} h = elim (Bool-cases (key y == k)) [
    | inl same ↦ ground (arith, eq_of_== (key y) k)
    | inr other ↦ find-key k t (rw other at h)
  ]

  pub find-insert_or_ignore :
      (k : K) (r : A) (t : List A)
      → find k (insert_or_ignore r t)
        ≡ elim (find k t) [ none ↦ (if key r == k then some r else none) | some x ↦ some x ]
  unfolding find insert_or_ignore
  find-insert_or_ignore k r [] = refl
  find-insert_or_ignore k r (x ∷ t) = ground (
    arith,
    find-insert_or_ignore k r t,
    e.equal_iff (key x) (key r),
    e.equal_iff (key x) k,
    e.equal_iff (key r) k,
  )

  pub find-insert_new :
      (k : K) (r : A) (t : List A)
      → find (key r) t ≡ none
      → find k (insert_or_ignore r t) ≡ (if key r == k then some r else find k t)
  find-insert_new k r t fresh = ground (arith, find-insert_or_ignore k r t, e.equal_iff (key r) k)

  -- A search over the rows after an INSERT of a new key.
  pub any-insert_new :
      (p : A → Bool) (r : A) (t : List A)
      → find (key r) t ≡ none
      → any p (insert_or_ignore r t) ≡ (any p t || p r)
  unfolding any find insert_or_ignore
  any-insert_new p r [] h = ground arith
  any-insert_new p r (x ∷ t) h = elim (Bool-cases (key x == key r)) [
    | inl same ↦ absurd (cc (rw same at h))
    | inr other ↦ rw other (ground (arith, any-insert_new p r t (rw other at h)))
  ]

  pub insert_or_ignore-eq_self :
      (r : A) (t : List A) {x : A} → find (key r) t ≡ some x → insert_or_ignore r t ≡ t
  unfolding find insert_or_ignore
  insert_or_ignore-eq_self r [] h = absurd (cc h)
  insert_or_ignore-eq_self r (y ∷ t) h = elim (Bool-cases (key y == key r)) [
    | inl same ↦ rw same
    | inr other ↦ rw other (ap (◌∷◌ y) (insert_or_ignore-eq_self r t (rw other at h)))
  ]

  module _ (r : A) (f : A → A) (keeps : (x : A) → key x ≡ key r → key (f x) ≡ key r) where
    pub find-upsert :
        (k : K) (t : List A)
        → find k (upsert r f t) ≡ (if key r == k then some (merged r f (find k t)) else find k t)
    unfolding find upsert
    find-upsert k [] = ground arith
    find-upsert k (x ∷ t) = ground (
      arith,
      find-upsert k t,
      keeps x,
      e.equal_iff (key x) (key r),
      e.equal_iff (key x) k,
      e.equal_iff (key r) k,
      e.equal_iff (key (f x)) k,
    )

    pub upsert-HasUniqueKeys : (t : List A) → HasUniqueKeys t → HasUniqueKeys (upsert r f t)
    unfolding find upsert
    upsert-HasUniqueKeys [] u = (refl, tt)
    upsert-HasUniqueKeys (x ∷ t) u = elim (Bool-cases (key x == key r)) [
      | inl same ↦ rw same (ground (arith, keeps x, eq_of_== (key x) (key r)))
      | inr other ↦ rw other (
          ground (
            arith,
            find-upsert (key x) t,
            e.equal_iff (key x) (key r),
            e.equal_iff (key r) (key x),
            upsert-HasUniqueKeys t u.1,
          ))
    ]

  module _ (j : K) (f : A → A) (keeps : (x : A) → key (f x) ≡ key x) where
    pub find-update :
        (k : K) (t : List A)
        → find k (update j f t) ≡ (if j == k then map_option f (find k t) else find k t)
    unfolding find update
    find-update k [] = ground arith
    find-update k (x ∷ t) = ground (
      arith,
      find-update k t,
      keeps x,
      e.equal_iff (key x) j,
      e.equal_iff (key x) k,
      e.equal_iff j k,
      e.equal_iff (key (f x)) k,
    )

  pub find-map :
      (f : A → A)
      → ((x : A) → key (f x) ≡ key x)
      → (k : K) (t : List A) → find k (map f t) ≡ map_option f (find k t)
  unfolding find
  find-map f keeps k [] = refl
  find-map f keeps k (x ∷ t) = ground (arith, find-map f keeps k t, keeps x)

  pub find-delete :
      (j k : K) (t : List A) → find k (delete j t) ≡ (if j == k then none else find k t)
  unfolding find delete
  find-delete j k [] = ground arith
  find-delete j k (x ∷ t) =
      ground
        (arith, find-delete j k t, e.equal_iff (key x) j, e.equal_iff (key x) k, e.equal_iff j k)

  pub delete-HasUniqueKeys : (j : K) (t : List A) → HasUniqueKeys t → HasUniqueKeys (delete j t)
  unfolding find delete
  delete-HasUniqueKeys j [] u = tt
  delete-HasUniqueKeys j (x ∷ t) u =
      ground (arith, find-delete j (key x) t, delete-HasUniqueKeys j t u.1)
