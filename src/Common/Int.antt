-- ===== src/Common/Int.antt =====
-- Signed 64-bit columns and timestamps, as integers over the native numbers.
use Prim.Native.Nat.{ℕ, zero, suc, ◌+◌, ◌-◌, ◌≤◌}
use mathlib.Core.Path.{◌≡◌}
use mathlib.Core.Logic.{◌⊎◌, ◌↔◌}
use mathlib.Core.Bool.{Bool, true, false}
use native.Mathlib.Omega.{arith}
use zca_desktop.Common.Tests.{ltb, leb, eqb, if◌then◌else◌}
use zca_desktop.Common.Keys.{Equality}

-- `negsuc n` is -(n + 1).
pub data ℤ : Type 0 where
  pos : ℕ → ℤ
  negsuc : ℕ → ℤ

abbrev pub pos_part : ℤ → ℕ
pos_part (pos n) = n
pos_part (negsuc n) = 0

abbrev pub neg_part : ℤ → ℕ
neg_part (pos n) = 0
neg_part (negsuc n) = suc n

infix 50 ◌≤ℤ◌
abbrev pub ◌≤ℤ◌ : ℤ → ℤ → Type 0
a ≤ℤ b = pos_part a + neg_part b ≤ pos_part b + neg_part a

abbrev pub leb_ℤ : ℤ → ℤ → Bool
leb_ℤ a b = leb (pos_part a + neg_part b) (pos_part b + neg_part a)

abbrev pub ltb_ℤ : ℤ → ℤ → Bool
ltb_ℤ a b = ltb (pos_part a + neg_part b) (pos_part b + neg_part a)

unfoldable pub neg_ℤ : ℤ → ℤ
neg_ℤ (pos zero) = pos 0
neg_ℤ (pos (suc n)) = negsuc n
neg_ℤ (negsuc n) = pos (suc n)

-- |a - b|, as a number: `ABS(a - b)`.
unfoldable pub distance : ℤ → ℤ → ℕ
distance a b =
    let x = pos_part a + neg_part b in let y = pos_part b + neg_part a in (x - y) + (y - x)

unfoldable pub max_ℤ : ℤ → ℤ → ℤ
max_ℤ a b = if leb_ℤ a b then b else a

abbrev beq_ℤ : ℤ → ℤ → Bool
beq_ℤ (pos a) (pos b) = eqb a b
beq_ℤ (negsuc a) (negsuc b) = eqb a b
beq_ℤ (pos a) (negsuc b) = false
beq_ℤ (negsuc a) (pos b) = false

pub beq_ℤ_iff : (a b : ℤ) → (beq_ℤ a b ≡ true) ↔ (a ≡ b)
beq_ℤ_iff a b = ground arith

instance abbrev pub integer_equality : Equality ℤ
integer_equality = record { equal = beq_ℤ; equal_iff = beq_ℤ_iff }

pub ≤ℤ_refl : (a : ℤ) → a ≤ℤ a
≤ℤ_refl a = omega arith

pub ≤ℤ_trans : (a b c : ℤ) → a ≤ℤ b → b ≤ℤ c → a ≤ℤ c
≤ℤ_trans a b c h k = omega arith

pub ≤ℤ_total : (a b : ℤ) → (a ≤ℤ b) ⊎ (b ≤ℤ a)
≤ℤ_total a b = omega arith

pub leb_ℤ→le : (a b : ℤ) → leb_ℤ a b ≡ true → a ≤ℤ b
leb_ℤ→le a b h = ground arith

pub leb_ℤ→ge : (a b : ℤ) → leb_ℤ a b ≡ false → b ≤ℤ a
leb_ℤ→ge a b h = ground arith

-- The maximum is an upper bound, and one of the two.
pub max_ℤ_bounds : (a b : ℤ) → (a ≤ℤ max_ℤ a b) × (b ≤ℤ max_ℤ a b)
unfolding max_ℤ
max_ℤ_bounds a b = ground arith

pub max_ℤ_lub : (a b c : ℤ) → a ≤ℤ c → b ≤ℤ c → max_ℤ a b ≤ℤ c
unfolding max_ℤ
max_ℤ_lub a b c h k = ground arith

pub distance_comm : (a b : ℤ) → distance a b ≡ distance b a
unfolding distance
distance_comm a b = omega arith
