-- ===== src/Common/Table/Selecting.antt =====
-- What a WHERE clause selects before and after a statement, and predicates of every row.
use mathlib.Core.Path.{◌≡◌, refl, ap, subst}
use mathlib.Core.Option.{some}
use mathlib.Core.Bool.{Bool, true, false}
use mathlib.Core.Logic.{inl, inr}
use mathlib.Core.List.{List, [], ◌∷◌, ◌++◌, map}
use native.Mathlib.Omega.{arith}
use zca_desktop.Common.Tests.{unwrap_or, Bool-cases}
use zca_desktop.Common.Keys.{Equality, ◌==◌}
use zca_desktop.Common.Lists.{select, any, All}
use zca_desktop.Common.Table.{find, upsert, update, delete}

module _ {ℓ} {A : Type ℓ} where
  pub All-imp {κ μ} :
      {P : A → Type κ} {Q : A → Type μ} (t : List A) → ((x : A) → P x → Q x) → All P t → All Q t
  All-imp [] f h = tt
  All-imp (x ∷ t) f h = (f x h.0, All-imp t f h.1)

  pub All-of {κ} : (P : A → Type κ) (t : List A) → ((x : A) → P x) → All P t
  All-of P [] f = tt
  All-of P (x ∷ t) f = (f x, All-of P t f)

  pub All-select {κ} : (P : A → Type κ) (q : A → Bool) (t : List A) → All P t → All P (select q t)
  unfolding select
  All-select P q [] h = tt
  All-select P q (x ∷ t) h = elim (Bool-cases (q x)) [
    | inl same ↦ rw same (h.0, All-select P q t h.1)
    | inr other ↦ rw other (All-select P q t h.1)
  ]

  -- What follows from any row that passes the test.
  pub any-elim {κ} :
      (p : A → Bool) (X : Type κ) (t : List A) → All (λ x. p x ≡ true → X) t → any p t ≡ true → X
  unfolding any
  any-elim p X [] h k = absurd (cc k)
  any-elim p X (x ∷ t) h k = elim (Bool-cases (p x)) [
    | inl same ↦ h.0 same
    | inr other ↦ any-elim p X t h.1 (rw other at k)
  ]

  -- A row that the clause does not see.
  pub select-append :
      (p : A → Bool) (t : List A) (r : A) → p r ≡ false → select p (t ++ r ∷ []) ≡ select p t
  unfolding select
  select-append p [] r h = rw h refl
  select-append p (x ∷ t) r h = ground (arith, select-append p t r h)

  -- Rows that are left out and that the clause does not see.
  pub select-select :
      (p q : A → Bool) (t : List A)
      → All (λ x. q x ≡ false → p x ≡ false) t
      → select p (select q t) ≡ select p t
  unfolding select
  select-select p q [] h = refl
  select-select p q (x ∷ t) h = ground (arith, select-select p q t h.1, h.0)

  pub map-select {κ} :
      {B : Type κ} (p : A → Bool) (f : A → A) (view : A → B) (t : List A)
      → ((x : A) → p (f x) ≡ p x)
      → ((x : A) → view (f x) ≡ view x)
      → map view (select p (map f t)) ≡ map view (select p t)
  unfolding select
  map-select p f view [] same looks = refl
  map-select p f view (x ∷ t) same looks =
      ground (arith, map-select p f view t same looks, same x, looks x)

module _ {ℓ κ} {K : Type κ} ⦃e : Equality K⦄ {A : Type ℓ} (key : A → K) where
  module _ {μ} {P : A → Type μ} (f : A → A) (keeps : (x : A) → P x → P (f x)) where
    pub All-update : (k : K) (t : List A) → All P t → All P (update key k f t)
    unfolding update
    All-update k [] h = tt
    All-update k (x ∷ t) h = elim (Bool-cases (key x == k)) [
      | inl same ↦ rw same (keeps x h.0, All-update k t h.1)
      | inr other ↦ rw other (h.0, All-update k t h.1)
    ]

    pub All-upsert : (r : A) (t : List A) → P r → All P t → All P (upsert key r f t)
    unfolding upsert
    All-upsert r [] new h = (new, tt)
    All-upsert r (x ∷ t) new h = elim (Bool-cases (key x == key r)) [
      | inl same ↦ rw same (keeps x h.0, h.1)
      | inr other ↦ rw other (h.0, All-upsert r t new h.1)
    ]

  pub All-find {μ} :
      (P : A → Type μ) (k : K) (t : List A) {x : A} → All P t → find key k t ≡ some x → P x
  unfolding find
  All-find P k [] h found = absurd (cc found)
  All-find P k (y ∷ t) {x} h found = elim (Bool-cases (key y == k)) [
    | inl same ↦
        let e : some y ≡ some x = rw same at found in subst P (ap (λ o. unwrap_or o y) e) h.0
    | inr other ↦ All-find P k t h.1 (rw other at found)
  ]

  pub All-delete {μ} : (P : A → Type μ) (k : K) (t : List A) → All P t → All P (delete key k t)
  unfolding delete
  All-delete P k [] h = tt
  All-delete P k (x ∷ t) h = elim (Bool-cases (key x == k)) [
    | inl same ↦ rw same (All-delete P k t h.1)
    | inr other ↦ rw other (h.0, All-delete P k t h.1)
  ]

  module _ (p : A → Bool) where
    -- A statement's rows, when the clause sees them neither before nor after.
    abbrev pub Unseen : K → (A → A) → A → Type 0
    Unseen k f x = (key x == k) ≡ true → (p x ≡ false) × (p (f x) ≡ false)

    pub select-update :
        (k : K) (f : A → A) (t : List A)
        → All (Unseen k f) t
        → select p (update key k f t) ≡ select p t
    unfolding select update
    select-update k f [] h = refl
    select-update k f (x ∷ t) h = ground (arith, select-update k f t h.1, h.0)

    pub select-upsert :
        (r : A) (f : A → A) (t : List A)
        → p r ≡ false
        → All (Unseen (key r) f) t
        → select p (upsert key r f t) ≡ select p t
    unfolding select upsert
    select-upsert r f [] new h = rw new refl
    select-upsert r f (x ∷ t) new h = ground (arith, select-upsert r f t new h.1, h.0)

    pub select-delete :
        (k : K) (t : List A)
        → All (λ x. (key x == k) ≡ true → p x ≡ false) t
        → select p (delete key k t) ≡ select p t
    unfolding select delete
    select-delete k [] h = refl
    select-delete k (x ∷ t) h = ground (arith, select-delete k t h.1, h.0)
