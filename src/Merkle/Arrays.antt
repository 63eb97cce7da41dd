-- ===== src/Merkle/Arrays.antt =====
-- The lists behind the array of VerifyComputeRoot: what stands from an index on, and writes.
use chainlink_common.Base.{
  ℕ, zero, suc, ◌+◌, ◌≡◌, ◌≤◌, ◌<◌, ap, refl, List, [], ◌∷◌, ◌++◌, some, length, arith, get_elem?,
  set, drop,
}

module _ {A : Type 0} where
  pub drop-cons :
      (k : ℕ) (xs : List A) {a : A} {ys : List A}
      → drop k xs ≡ a ∷ ys
      → (get_elem? xs k ≡ some a) × (drop (k + 1) xs ≡ ys) × (k < length xs)
  drop-cons zero [] h = cc
  drop-cons zero (x ∷ xs) h = ground arith
  drop-cons (suc k) [] h = cc
  drop-cons (suc k) (x ∷ xs) h = ground (arith, drop-cons k xs h)

  pub drop-lt :
      (k : ℕ) (xs : List A)
      → k < length xs
      → (a : A) × (drop k xs ≡ a ∷ drop (k + 1) xs) × (get_elem? xs k ≡ some a)
  drop-lt k [] h = elim h [ ]
  drop-lt zero (x ∷ xs) h = (x, refl, refl)
  drop-lt (suc k) (x ∷ xs) h =
      let (a, e, f) = drop-lt k xs (omega arith) in (a, rw e (ground arith), f)

  pub drop_all : (k : ℕ) (xs : List A) → length xs ≤ k → drop k xs ≡ []
  drop_all zero [] h = refl
  drop_all zero (x ∷ xs) h = absurd (omega arith)
  drop_all (suc k) [] h = refl
  drop_all (suc k) (x ∷ xs) h = drop_all k xs (omega arith)

  pub get_elem?-append :
      (xs ys : List A) (k : ℕ) {a : A} → get_elem? xs k ≡ some a → get_elem? (xs ++ ys) k ≡ some a
  get_elem?-append [] ys k h = cc
  get_elem?-append (x ∷ xs) ys zero h = h
  get_elem?-append (x ∷ xs) ys (suc k) h = get_elem?-append xs ys k h

  pub set-append :
      (xs ys : List A) (y v : A) → set (xs ++ y ∷ ys) (length xs) v ≡ (xs ++ v ∷ []) ++ ys
  set-append [] ys y v = refl
  set-append (x ∷ xs) ys y v = ap (◌∷◌ x) (set-append xs ys y v)
