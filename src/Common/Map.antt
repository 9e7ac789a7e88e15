-- ===== src/Common/Map.antt =====
-- `HashMap` as a table of entries. The program never relies on the order of a map's entries.
use Prim.Native.Nat.{ℕ, ◌+◌}
use mathlib.Core.Path.{◌≡◌, refl}
use mathlib.Core.List.{List, [], ◌∷◌}
use mathlib.Core.Option.{Option, none, some}
use native.Mathlib.Omega.{arith}
use zca_desktop.Common.Tests.{if◌then◌else◌, map_option, Bool-cases}
use mathlib.Core.Logic.{inl, inr}
use zca_desktop.Common.Lists.{length}
use zca_desktop.Common.Keys.{Equality, ◌==◌, eq_of_==}
use zca_desktop.Common.Table.{
  find, upsert, delete, HasUniqueKeys, delete-HasUniqueKeys, upsert-HasUniqueKeys,
}

-- A map's entries.
abbrev pub Map {ℓ κ} : Type ℓ → Type κ → Type (ℓ ⊔ κ)
Map K V = List (K × V)

abbrev pub entry_key {ℓ κ} : {K : Type ℓ} {V : Type κ} → K × V → K
entry_key e = e.0

module _ {ℓ κ} {K : Type ℓ} ⦃e : Equality K⦄ {V : Type κ} where
  unfoldable pub get : K → Map K V → Option V
  unfolding find
  get k m = map_option (λ x. x.1) (find entry_key k m)

  unfoldable pub put : K → V → Map K V → Map K V
  unfolding upsert
  put k v m = upsert entry_key (k, v) (λ x. (x.0, v)) m

  unfoldable pub remove : K → Map K V → Map K V
  unfolding delete
  remove k m = delete entry_key k m

  pub get-put :
      (k j : K) (v : V) (m : Map K V) → get j (put k v m) ≡ (if k == j then some v else get j m)
  unfolding get put
  get-put k j v [] = ground (arith, e.equal_iff k j)
  get-put k j v ((i, w) ∷ m) =
      ground (arith, get-put k j v m, e.equal_iff i k, e.equal_iff i j, e.equal_iff k j)

  pub get-remove : (k j : K) (m : Map K V) → get j (remove k m) ≡ (if k == j then none else get j m)
  unfolding get remove
  get-remove k j [] = ground (arith, e.equal_iff k j)
  get-remove k j ((i, w) ∷ m) =
      ground (arith, get-remove k j m, e.equal_iff i k, e.equal_iff i j, e.equal_iff k j)

  -- No key has two entries.
  abbrev pub IsMap : Map K V → Type (ℓ ⊔ κ)
  IsMap m = HasUniqueKeys entry_key m

  pub put-IsMap : (k : K) (v : V) (m : Map K V) → IsMap m → IsMap (put k v m)
  unfolding put
  put-IsMap k v m u = upsert-HasUniqueKeys entry_key (k, v) (λ x. (x.0, v)) (λ x h. h) m u

  pub remove-IsMap : (k : K) (m : Map K V) → IsMap m → IsMap (remove k m)
  unfolding remove
  remove-IsMap k m u = delete-HasUniqueKeys entry_key k m u

  -- A sum over the values of a map.
  unfoldable pub tally : (V → ℕ) → Map K V → ℕ
  tally f [] = 0
  tally f ((j, v) ∷ m) = f v + tally f m

  remove-eq_self : (k : K) (m : Map K V) → find entry_key k m ≡ none → remove k m ≡ m
  unfolding remove find
  remove-eq_self k [] h = refl
  remove-eq_self k ((j, v) ∷ m) h = elim (Bool-cases (j == k)) [
    | inl same ↦ ground (arith, same)
    | inr other ↦ rw other (ground (arith, remove-eq_self k m (rw other at h)))
  ]

  pub tally-remove :
      (f : V → ℕ) (k : K) (m : Map K V)
      → IsMap m
      → tally f m ≡ tally f (remove k m) + elim (get k m) [ none ↦ 0 | some v ↦ f v ]
  unfolding tally get remove find
  tally-remove f k [] u = omega arith
  tally-remove f k ((j, v) ∷ m) u = elim (Bool-cases (j == k)) [
    | inl same ↦ ground (arith, eq_of_== j k same, remove-eq_self k m)
    | inr other ↦ ground (arith, tally-remove f k m u.1)
  ]

  pub tally-put_new :
      (f : V → ℕ) (k : K) (v : V) (m : Map K V)
      → get k m ≡ none
      → tally f (put k v m) ≡ tally f m + f v
  unfolding tally get put find
  tally-put_new f k v [] h = omega arith
  tally-put_new f k v ((j, w) ∷ m) h = ground (arith, tally-put_new f k v m)

  pub length-eq-tally : (m : Map K V) → length m ≡ tally (λ v. 1) m
  unfolding tally
  length-eq-tally [] = refl
  length-eq-tally (x ∷ m) = omega (arith, length-eq-tally m)
