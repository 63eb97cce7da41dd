-- ===== src/Base/Bytes.antt =====
-- Byte strings and their comparison, `bytes.Equal`.
use Prim.Native.Nat.{ℕ}
use mathlib.Core.Path.{◌≡◌, refl}
use mathlib.Core.Logic.{◌↔◌}
use mathlib.Core.Bool.{Bool, true, false, ◌&&◌}
use mathlib.Core.List.{List, [], ◌∷◌}
use native.Mathlib.Omega.{arith}
use chainlink_common.Base.Tests.{◌==◌, Eq}

abbrev pub Bytes : Type 0
Bytes = List ℕ

unfoldable pub same_bytes : Bytes → Bytes → Bool
same_bytes [] [] = true
same_bytes (a ∷ xs) (b ∷ ys) = a == b && same_bytes xs ys
same_bytes _ _ = false

pub same_bytes-eq : (xs ys : Bytes) → same_bytes xs ys ≡ true → xs ≡ ys
unfolding same_bytes
same_bytes-eq [] [] h = refl
same_bytes-eq [] (b ∷ ys) h = cc
same_bytes-eq (a ∷ xs) [] h = cc
same_bytes-eq (a ∷ xs) (b ∷ ys) h = ground (arith, same_bytes-eq xs ys)

pub same_bytes_self : (xs : Bytes) → same_bytes xs xs ≡ true
unfolding same_bytes
same_bytes_self [] = refl
same_bytes_self (a ∷ xs) = ground (arith, same_bytes_self xs)

pub same_bytes_iff : (xs ys : Bytes) → (same_bytes xs ys ≡ true) ↔ (xs ≡ ys)
same_bytes_iff xs ys = (same_bytes-eq xs ys, λ e. rw e (same_bytes_self ys))

instance abbrev pub bytes_eq : Eq Bytes
bytes_eq = record { beq = same_bytes; beq_iff = same_bytes_iff }
