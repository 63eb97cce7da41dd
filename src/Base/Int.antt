-- ===== src/Base/Int.antt =====
-- Signed integers over the native numbers, under the library's names, and int64.
use Prim.Native.Nat.{ℕ, suc, ◌+◌, ◌-◌, ◌%◌, ◌≤◌}
use mathlib.Core.Bool.{Bool, true, false}
use mathlib.Core.Path.{◌≡◌}
use mathlib.Core.Logic.{◌↔◌}
use native.Mathlib.Omega.{arith}
use chainlink_common.Base.Tests.{◌==◌, Eq, ltb, if◌then◌else◌}

-- `negsuc n` is -(n + 1).
pub data ℤ : Type 0 where
  pos : ℕ → ℤ
  negsuc : ℕ → ℤ

abbrev pub eq_ℤ : ℤ → ℤ → Bool
eq_ℤ (pos m) (pos n) = m == n
eq_ℤ (negsuc m) (negsuc n) = m == n
eq_ℤ (pos m) (negsuc n) = false
eq_ℤ (negsuc m) (pos n) = false

pub eq_ℤ_iff : (a b : ℤ) → (eq_ℤ a b ≡ true) ↔ (a ≡ b)
eq_ℤ_iff a b = ground arith

instance abbrev pub int_eq : Eq ℤ
int_eq = record { beq = eq_ℤ; beq_iff = eq_ℤ_iff }

-- The two parts of an integer, of which one is 0.
abbrev pub pos_part : ℤ → ℕ
pos_part (pos n) = n
pos_part (negsuc n) = 0

abbrev pub neg_part : ℤ → ℕ
neg_part (pos n) = 0
neg_part (negsuc n) = suc n

abbrev pub ltb_ℤ : ℤ → ℤ → Bool
ltb_ℤ a b = ltb (pos_part a + neg_part b) (pos_part b + neg_part a)

infix 50 ◌≤ℤ◌
abbrev pub ◌≤ℤ◌ : ℤ → ℤ → Type 0
a ≤ℤ b = pos_part a + neg_part b ≤ pos_part b + neg_part a

-- An integer from its bits modulo 2 ^ 64.
abbrev pub of_bits64 : ℕ → ℤ
of_bits64 n =
    if ltb n 0x8000_0000_0000_0000 then pos n else negsuc (0x1_0000_0000_0000_0000 - n - 1)

abbrev pub bits64 : ℤ → ℕ
bits64 (pos n) = n
bits64 (negsuc n) = 0x1_0000_0000_0000_0000 - n - 1

-- The difference of two int64, which wraps.
unfoldable pub sub64 : ℤ → ℤ → ℤ
sub64 a b = of_bits64 ((bits64 a + 0x1_0000_0000_0000_0000 - bits64 b) % 0x1_0000_0000_0000_0000)
