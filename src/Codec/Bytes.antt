-- ===== src/Codec/Bytes.antt =====
-- Bytes of a number in either order: Go's `binary.ByteOrder`, and the `FillBytes` and `SetBytes` of
-- math/big, which pkg/codec/encodings/binary uses.
pub use chainlink_common.Base.Bytes.{Bytes}
use mathlib.Core.List.{reverse, reverse-cons, reverse-reverse}
use chainlink_common.Base.{
  ℕ, zero, suc, ◌+◌, ◌*◌, ◌/◌, ◌%◌, ◌≡◌, ◌<◌, refl, [], ◌∷◌, length, length-append, arith,
}

-- 2 ^ (8 * n): the numbers that n bytes hold lie below it.
abbrev pub capacity : ℕ → ℕ
capacity zero = 1
capacity (suc n) = 256 * capacity n

little_bytes : ℕ → ℕ → Bytes
little_bytes zero v = []
little_bytes (suc n) v = (v % 256) ∷ little_bytes n (v / 256)

of_little : Bytes → ℕ
of_little [] = 0
of_little (b ∷ bs) = b + 256 * of_little bs

pub data ByteOrder : Type 0 where
  big_endian little_endian : ByteOrder

-- `PutUint16`, `PutUint32` and so on, as a list of `n` bytes.
unfoldable pub put : ByteOrder → ℕ → ℕ → Bytes
unfolding little_bytes
put little_endian n v = little_bytes n v
put big_endian n v = reverse (little_bytes n v)

-- `Uint16`, `Uint32` and so on.
unfoldable pub get : ByteOrder → Bytes → ℕ
unfolding of_little
get little_endian bs = of_little bs
get big_endian bs = of_little (reverse bs)

of_little-little_bytes : (n v : ℕ) → v < capacity n → of_little (little_bytes n v) ≡ v
unfolding little_bytes of_little
of_little-little_bytes zero v h = omega arith
of_little-little_bytes (suc n) v h = omega (arith, of_little-little_bytes n (v / 256) (omega arith))

pub get-put : (order : ByteOrder) (n v : ℕ) → v < capacity n → get order (put order n v) ≡ v
unfolding get put
get-put little_endian n v h = of_little-little_bytes n v h
get-put big_endian n v h = rw reverse-reverse (of_little-little_bytes n v h)

length-little_bytes : (n v : ℕ) → length (little_bytes n v) ≡ n
unfolding little_bytes
length-little_bytes zero v = refl
length-little_bytes (suc n) v = omega (arith, length-little_bytes n (v / 256))

pub length-reverse : (bs : Bytes) → length (reverse bs) ≡ length bs
length-reverse [] = refl
length-reverse (b ∷ bs) =
    rw (reverse-cons b bs) (omega (arith, length-append (reverse bs) (b ∷ []), length-reverse bs))

pub length-put : (order : ByteOrder) (n v : ℕ) → length (put order n v) ≡ n
unfolding put
length-put little_endian n v = length-little_bytes n v
length-put big_endian n v =
    omega (arith, length-reverse (little_bytes n v), length-little_bytes n v)
