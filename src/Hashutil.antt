-- ===== src/Hashutil.antt =====
-- pkg/hashutil/keccak.go: the hasher of the Merkle trees. Bytes are numbers below 256, and the
-- function of golang.org/x/crypto/sha3 is the parameter `keccak256`.
use chainlink_common.Base.{
  ℕ, ◌≡◌, refl, List, [], ◌∷◌, ◌++◌, Bool, true, false, arith, ltb, ◌==◌, if◌then◌else◌,
}
use chainlink_common.Merkle.Tree.{Hasher}
use chainlink_common.Merkle.Verify.{repeat}
use chainlink_common.Merkle.Layer.{IsSymmetric}

-- bytes.Compare(a, b) < 0.
unfoldable pub bytes_lt : List ℕ → List ℕ → Bool
bytes_lt [] [] = false
bytes_lt [] (b ∷ bs) = true
bytes_lt (a ∷ as₁) [] = false
bytes_lt (a ∷ as₁) (b ∷ bs) = let rest = bytes_lt as₁ bs in if a == b then rest else ltb a b

abbrev pub internal_domain_separator : List ℕ
internal_domain_separator = repeat 31 0 ++ 1 ∷ []

module _ (keccak256 : List ℕ → List ℕ) where
  -- HashInternal.
  unfoldable pub hash_internal : List ℕ → List ℕ → List ℕ
  hash_internal a b =
      if bytes_lt a b
      then keccak256 (internal_domain_separator ++ (a ++ b))
      else keccak256 (internal_domain_separator ++ (b ++ a))

  -- NewKeccak, with ZeroHash.
  unfoldable pub new_keccak : Hasher (List ℕ)
  new_keccak = record { zero_hash = repeat 32 0xff; hash_internal = hash_internal }

  bytes_lt-connex : (a b : List ℕ) → bytes_lt a b ≡ false → bytes_lt b a ≡ false → a ≡ b
  unfolding bytes_lt
  bytes_lt-connex [] [] p q = refl
  bytes_lt-connex [] (b ∷ bs) p q = cc
  bytes_lt-connex (a ∷ as₁) [] p q = cc
  bytes_lt-connex (a ∷ as₁) (b ∷ bs) p q = ground (arith, bytes_lt-connex as₁ bs)

  bytes_lt-asym : (a b : List ℕ) → bytes_lt a b ≡ true → bytes_lt b a ≡ false
  unfolding bytes_lt
  bytes_lt-asym [] [] p = cc
  bytes_lt-asym [] (b ∷ bs) p = refl
  bytes_lt-asym (a ∷ as₁) [] p = cc
  bytes_lt-asym (a ∷ as₁) (b ∷ bs) p = ground (arith, bytes_lt-asym as₁ bs)

  -- Whatever the hash function is, HashInternal orders its arguments first, so it gives one hash
  -- for the two orders of a pair.
  pub new_keccak-IsSymmetric : IsSymmetric new_keccak
  unfolding hash_internal new_keccak
  new_keccak-IsSymmetric a b =
      ground (arith, bytes_lt-connex a b, bytes_lt-asym a b, bytes_lt-asym b a)
