-- ===== src/Mailbox/Reverse.antt =====
-- The loop of RetrieveAll reverses the queue.
use mathlib.Core.List.{reverse, reverse-cons, reverse-append, append-nil, append_assoc}
use chainlink_common.Base.{
  ℕ, zero, suc, ◌+◌, ◌-◌, ◌≡◌, ◌≤◌, ◌⊎◌, inl, inr, refl, sym, ap, ◌∙◌, List, [], ◌∷◌, ◌++◌, some,
  true, length, length-append, get_elem?, set, ltb, arith,
}
use chainlink_common.Mailbox.Queue.{swap, swap_ends}

module _ {ℓ} {T : Type ℓ} where
  pub get_elem?-at :
      (pre post : List T) (a : T) (i : ℕ) → i ≡ length pre → get_elem? (pre ++ a ∷ post) i ≡ some a
  get_elem?-at [] post a zero e = refl
  get_elem?-at [] post a (suc i) e = absurd (omega arith)
  get_elem?-at (x ∷ pre) post a zero e = absurd (omega arith)
  get_elem?-at (x ∷ pre) post a (suc i) e = get_elem?-at pre post a i (omega arith)

  set-at :
      (pre post : List T) (a b : T) (i : ℕ)
      → i ≡ length pre
      → set (pre ++ a ∷ post) i b ≡ pre ++ b ∷ post
  set-at [] post a b zero e = refl
  set-at [] post a b (suc i) e = absurd (omega arith)
  set-at (x ∷ pre) post a b zero e = absurd (omega arith)
  set-at (x ∷ pre) post a b (suc i) e = ap (◌∷◌ x) (set-at pre post a b i (omega arith))

  swap-at :
      (pre mid post : List T) (a b : T) (i j : ℕ)
      → i ≡ length pre
      → j ≡ length pre + 1 + length mid
      → swap (pre ++ (a ∷ (mid ++ (b ∷ post)))) i j ≡ pre ++ (b ∷ (mid ++ (a ∷ post)))
  unfolding swap
  swap-at pre mid post a b i j e f = ground (
    arith,
    get_elem?-at pre (mid ++ b ∷ post) a i e,
    append_assoc pre (a ∷ mid) (b ∷ post),
    get_elem?-at (pre ++ a ∷ mid) post b j (omega (arith, length-append pre (a ∷ mid))),
    set-at pre (mid ++ b ∷ post) a b i e,
    append_assoc pre (b ∷ mid) (b ∷ post),
    append_assoc pre (b ∷ mid) (a ∷ post),
    set-at (pre ++ b ∷ mid) post b a j (omega (arith, length-append pre (b ∷ mid))),
  )

  -- A list is empty, or it has a last element.
  pub snoc-cases : (xs : List T) → (xs ≡ []) ⊎ ((ys : List T) × (y : T) × (xs ≡ ys ++ y ∷ []))
  snoc-cases [] = inl refl
  snoc-cases (x ∷ xs) = elim (snoc-cases xs) [
    | inl e ↦ inr ([], x, ap (◌∷◌ x) e)
    | inr (ys, y, e) ↦ inr (x ∷ ys, y, ap (◌∷◌ x) e)
  ]

  swap_ends-between :
      (fuel i j : ℕ) (pre mid post : List T)
      → i ≡ length pre
      → j ≡ i + length mid
      → length mid ≤ fuel
      → swap_ends fuel i j (pre ++ (mid ++ post)) ≡ pre ++ (reverse mid ++ post)
  unfolding swap_ends
  swap_ends-between zero i j pre [] post e f h = refl
  swap_ends-between zero i j pre (a ∷ mid) post e f h = elim h [ ]
  swap_ends-between (suc fuel) i j pre [] post e f h = ground arith
  swap_ends-between (suc fuel) i j pre (a ∷ mid) post e f h = elim (snoc-cases mid) [
    | inl n ↦ ground arith
    | inr (mid', b, n) ↦
        let more : ltb (i + 1) j ≡ true = ground (arith, length-append mid' (b ∷ [])) in
        let swapped : swap (pre ++ (a ∷ (mid ++ post))) i (j - 1)
            ≡ (pre ++ b ∷ []) ++ (mid' ++ (a ∷ post)) =
          ground (
            arith,
            length-append mid' (b ∷ []),
            append_assoc mid' (b ∷ []) post,
            swap-at pre mid' post a b i (j - 1) e,
            append_assoc pre (b ∷ []) (mid' ++ (a ∷ post)),
          ) in
        let turned : pre ++ (reverse (a ∷ mid) ++ post)
            ≡ (pre ++ b ∷ []) ++ (reverse mid' ++ (a ∷ post)) =
          ground (
            arith,
            append_assoc pre (b ∷ []) (reverse mid' ++ (a ∷ post)),
            reverse-cons a mid,
            reverse-append mid' (b ∷ []),
            append_assoc (b ∷ reverse mid') (a ∷ []) post,
          ) in
        let rest =
          swap_ends-between fuel (i + 1) (j - 1) (pre ++ b ∷ []) mid' (a ∷ post)
            (omega (arith, length-append pre (b ∷ [])))
            (ground (arith, length-append mid' (b ∷ [])))
            (ground (arith, length-append mid' (b ∷ []))) in
        rw (more, swap_ends) (ap (swap_ends fuel (i + 1) (j - 1)) swapped ∙ rest ∙ sym turned)
  ]

  pub swap_ends-reverse :
      (queue : List T) → swap_ends (length queue) 0 (length queue) queue ≡ reverse queue
  swap_ends-reverse queue = ground (
    arith,
    swap_ends-between (length queue) 0 (length queue) [] queue [],
    append-nil queue,
    append-nil (reverse queue),
  )
