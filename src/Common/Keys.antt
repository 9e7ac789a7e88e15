-- ===== src/Common/Keys.antt =====
-- Equality tests as an interface: ids, keys and texts are compared through it.
use Prim.Native.Nat.{ℕ}
use Prim.Native.String.{String}
use mathlib.Core.Path.{◌≡◌, refl}
use mathlib.Core.Logic.{◌≢◌, ◌↔◌}
use mathlib.Core.Bool.{Bool, true, false, ◌&&◌}
use native.Mathlib.Omega.{arith}
use text.Mathlib.Text.{◌==◌ as str_eq}
use text.Mathlib.TextEquality.{eq_iff}
use zca_desktop.Common.Tests.{eqb, eqb_iff}

pub record Equality {ℓ} (A : Type ℓ) : Type ℓ where
  pub equal : A → A → Bool
  pub equal_iff : (a b : A) → (equal a b ≡ true) ↔ (a ≡ b)

infix 50 ◌==◌
abbrev pub ◌==◌ {ℓ} : {A : Type ℓ} ⦃e : Equality A⦄ → A → A → Bool
◌==◌ ⦃e⦄ = e.equal

-- Texts by their code points.
instance abbrev pub text_equality : Equality String
text_equality = record { equal = str_eq; equal_iff = eq_iff }

-- Ids and counts.
instance abbrev pub number_equality : Equality ℕ
number_equality = record { equal = eqb; equal_iff = eqb_iff }

module _ {ℓ κ} {A : Type ℓ} {B : Type κ} (d : Equality A) (e : Equality B) where
  abbrev beq_pair : A × B → A × B → Bool
  beq_pair p q = d.equal p.0 q.0 && e.equal p.1 q.1

  pub beq_pair_iff : (p q : A × B) → (beq_pair p q ≡ true) ↔ (p ≡ q)
  beq_pair_iff p q = ground (arith, d.equal_iff p.0 q.0, e.equal_iff p.1 q.1)

instance abbrev pub pair_equality {ℓ κ} :
    {A : Type ℓ} {B : Type κ} ⦃d : Equality A⦄ ⦃e : Equality B⦄ → Equality (A × B)
pair_equality ⦃d⦄ ⦃e⦄ = record { equal = beq_pair d e; equal_iff = beq_pair_iff d e }

module _ {ℓ} {A : Type ℓ} ⦃e : Equality A⦄ where
  pub ==_refl : (a : A) → (a == a) ≡ true
  ==_refl a = (e.equal_iff a a).1 refl

  pub eq_of_== : (a b : A) → (a == b) ≡ true → a ≡ b
  eq_of_== a b h = (e.equal_iff a b).0 h

  pub ==_of_ne : (a b : A) → a ≢ b → (a == b) ≡ false
  ==_of_ne a b h = ground (arith, e.equal_iff a b)

  pub ne_of_== : (a b : A) → (a == b) ≡ false → a ≢ b
  ne_of_== a b h = ground (arith, e.equal_iff a b)

  pub ==_sym : (a b : A) → (a == b) ≡ (b == a)
  ==_sym a b = ground (arith, e.equal_iff a b, e.equal_iff b a)
