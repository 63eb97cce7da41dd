-- ===== src/Aggregators/Median.antt =====
-- The median of the reduce aggregator lies between the values of nodes that are right, if at most f
-- are not.
use Prim.Native.String.{String}
use chainlink_common.Base.{
  ℕ, zero, suc, ◌+◌, ◌-◌, ◌*◌, ◌/◌, ◌≡◌, ◌≤◌, ◌<◌, refl, inl, inr, List, [], ◌∷◌, true, false,
  Option, some, length, get_elem?, if◌then◌else◌, string_eq, ok, arith, Bool-cases,
}
use chainlink_common.Aggregators.ReduceConfig.{method_median}
use chainlink_common.Aggregators.Reduce.{
  Decimals, Item, to_decimal, or_zero, insert_item, sort_items, compare_all, sort_as_decimal,
  median, reduce,
}

-- Decimals are ordered.
pub record IsOrder {D F : Type 0} (ops : Decimals D F) : Type 0 where
  pub asymmetric : (a b : D) → ops.greater_than a b ≡ true → ops.greater_than b a ≡ false
  pub transitive :
      (a b c : D)
      → ops.greater_than a b ≡ false
      → ops.greater_than b c ≡ false
      → ops.greater_than a c ≡ false

module _ {D F : Type 0} (ops : Decimals D F) where
  abbrev key : Item D F → D
  key v = or_zero ops v

  -- How many items are over or under a bound.
  abbrev pub above : D → List (Item D F) → ℕ
  above hi [] = 0
  above hi (v ∷ vs) = let n = above hi vs in if ops.greater_than (key v) hi then suc n else n

  abbrev pub below : D → List (Item D F) → ℕ
  below lo [] = 0
  below lo (v ∷ vs) = let n = below lo vs in if ops.greater_than lo (key v) then suc n else n

  -- Every item stands for a decimal.
  abbrev pub Numeric : List (Item D F) → Type 0
  Numeric [] = Unit
  Numeric (v ∷ vs) = ((d : D) × (to_decimal ops v ≡ ok d)) × Numeric vs

  -- No item is over a bound.
  abbrev UpTo : D → List (Item D F) → Type 0
  UpTo d [] = Unit
  UpTo d (v ∷ vs) = (ops.greater_than (key v) d ≡ false) × UpTo d vs

  abbrev Sorted : List (Item D F) → Type 0
  Sorted [] = Unit
  Sorted (v ∷ vs) = UpTo (key v) vs × Sorted vs

  insert_item-counts :
      (d : D) (v : Item D F) (vs : List (Item D F))
      → (length (insert_item ops v vs) ≡ suc (length vs))
        × (above d (insert_item ops v vs) ≡ above d (v ∷ vs))
        × (below d (insert_item ops v vs) ≡ below d (v ∷ vs))
  unfolding insert_item
  insert_item-counts d v [] = (refl, refl, refl)
  insert_item-counts d v (w ∷ ws) = ground (arith, insert_item-counts d v ws)

  sort_items-counts :
      (d : D) (vs : List (Item D F))
      → (length (sort_items ops vs) ≡ length vs)
        × (above d (sort_items ops vs) ≡ above d vs)
        × (below d (sort_items ops vs) ≡ below d vs)
  unfolding sort_items
  sort_items-counts d [] = (refl, refl, refl)
  sort_items-counts d (v ∷ vs) =
      ground (arith, insert_item-counts d v (sort_items ops vs), sort_items-counts d vs)

  compare_all-Numeric : (vs : List (Item D F)) → Numeric vs → compare_all ops vs ≡ ok tt
  unfolding compare_all
  compare_all-Numeric [] h = refl
  compare_all-Numeric (v ∷ vs) h = rw (h.0.1) (compare_all-Numeric vs h.1)

  sort_as_decimal-eq_ok :
      (vs : List (Item D F)) → Numeric vs → sort_as_decimal ops vs ≡ ok (sort_items ops vs)
  unfolding sort_as_decimal sort_items
  sort_as_decimal-eq_ok [] h = refl
  sort_as_decimal-eq_ok (v ∷ []) h = refl
  sort_as_decimal-eq_ok (v ∷ (w ∷ ws)) h = rw (compare_all-Numeric (v ∷ (w ∷ ws)) h)

  median-some :
      (vs : List (Item D F)) {v : Item D F}
      → Numeric vs
      → get_elem? (sort_items ops vs) ((length (sort_items ops vs) - 1) / 2) ≡ some v
      → median ops vs ≡ ok v
  unfolding median
  median-some [] h e = absurd (unfold sort_items in cc (e))
  median-some (w ∷ ws) h e = rw (sort_as_decimal-eq_ok (w ∷ ws) h, e)

  module _ (order : IsOrder ops) where
    UpTo-le :
        (d d' : D) (vs : List (Item D F)) → ops.greater_than d d' ≡ false → UpTo d vs → UpTo d' vs
    UpTo-le d d' [] h a = tt
    UpTo-le d d' (v ∷ vs) h (a, b) = (order.transitive (key v) d d' a h, UpTo-le d d' vs h b)

    insert_item-UpTo :
        (d : D) (v : Item D F) (vs : List (Item D F))
        → ops.greater_than (key v) d ≡ false
        → UpTo d vs
        → UpTo d (insert_item ops v vs)
    unfolding insert_item
    insert_item-UpTo d v [] h a = (h, tt)
    insert_item-UpTo d v (w ∷ ws) h (a, b) = elim (Bool-cases (ops.greater_than (key w) (key v))) [
      | inl e ↦ rw (e, insert_item) (a, insert_item-UpTo d v ws h b)
      | inr e ↦ rw (e, insert_item) (h, (a, b))
    ]

    insert_item-Sorted :
        (v : Item D F) (vs : List (Item D F)) → Sorted vs → Sorted (insert_item ops v vs)
    unfolding insert_item
    insert_item-Sorted v [] s = (tt, tt)
    insert_item-Sorted v (w ∷ ws) (a, s) = elim (Bool-cases (ops.greater_than (key w) (key v))) [
      | inl e ↦
          rw (e, insert_item)
            (
              insert_item-UpTo (key w) v ws (order.asymmetric (key w) (key v) e) a,
              insert_item-Sorted v ws s,
            )
      | inr e ↦ rw (e, insert_item) ((e, UpTo-le (key w) (key v) ws e a), (a, s))
    ]

    sort_items-Sorted : (vs : List (Item D F)) → Sorted (sort_items ops vs)
    unfolding sort_items
    sort_items-Sorted [] = tt
    sort_items-Sorted (v ∷ vs) = insert_item-Sorted v (sort_items ops vs) (sort_items-Sorted vs)

    UpTo-get :
        (d : D) (i : ℕ) (vs : List (Item D F)) {v : Item D F}
        → UpTo d vs
        → get_elem? vs i ≡ some v
        → ops.greater_than (key v) d ≡ false
    UpTo-get d i [] a e = cc
    UpTo-get d zero (w ∷ ws) (a, b) e = ground arith
    UpTo-get d (suc i) (w ∷ ws) (a, b) e = UpTo-get d i ws b e

    -- Under an item that is below a bound, all are below it.
    below-UpTo :
        (lo d : D) (vs : List (Item D F))
        → UpTo d vs
        → ops.greater_than lo d ≡ true
        → below lo vs ≡ length vs
    below-UpTo lo d [] a h = refl
    below-UpTo lo d (v ∷ vs) (a, b) h = elim (Bool-cases (ops.greater_than lo (key v))) [
      | inl e ↦ rw e (omega (arith, below-UpTo lo d vs b h))
      | inr e ↦ absurd (ground (arith, order.transitive lo (key v) d e a))
    ]

    from_above :
        (hi : D) (i : ℕ) (vs : List (Item D F)) {v : Item D F}
        → Sorted vs
        → get_elem? vs i ≡ some v
        → above hi vs ≤ i
        → ops.greater_than (key v) hi ≡ false
    from_above hi i [] s e h = cc
    from_above hi zero (w ∷ ws) (a, s) e h = ground arith
    from_above hi (suc i) (w ∷ ws) {v = v} (a, s) e h =
        elim (Bool-cases (ops.greater_than (key w) hi)) [
          | inl over ↦ from_above hi i ws s e (ground arith)
          | inr under ↦ order.transitive (key v) (key w) hi (UpTo-get (key w) i ws a e) under
        ]

    up_to_below :
        (lo : D) (i : ℕ) (vs : List (Item D F)) {v : Item D F}
        → Sorted vs
        → get_elem? vs i ≡ some v
        → i + below lo vs < length vs
        → ops.greater_than lo (key v) ≡ false
    up_to_below lo i [] s e h = cc
    up_to_below lo zero (w ∷ ws) (a, s) e h = elim (Bool-cases (ops.greater_than lo (key w))) [
      | inl over ↦ absurd (ground (arith, below-UpTo lo (key w) ws a over))
      | inr under ↦ ground arith
    ]
    up_to_below lo (suc i) (w ∷ ws) (a, s) e h = up_to_below lo i ws s e (ground arith)

    get_elem?-some :
        (i : ℕ) (vs : List (Item D F)) → i < length vs → (v : Item D F) × (get_elem? vs i ≡ some v)
    get_elem?-some i [] h = absurd (omega arith)
    get_elem?-some zero (v ∷ vs) h = (v, refl)
    get_elem?-some (suc i) (v ∷ vs) h = get_elem?-some i vs (omega arith)

    -- Of items that all stand for decimals, at least 2f+1 in number, with at most f of them under
    -- `lo` and at most f over `hi`, the median method returns an item whose decimal lies between
    -- the two.
    pub reduce-median_between :
        (hash : Option (Item D F) → Option String) (lo hi : D) (items : List (Item D F)) (f : ℕ)
        (mode_quorum : String)
        → Numeric items
        → 2 * f + 1 ≤ length items
        → below lo items ≤ f
        → above hi items ≤ f
        → (v : Item D F) × (reduce ops hash method_median items f mode_quorum ≡ ok v)
          × (ops.greater_than lo (or_zero ops v) ≡ false)
          × (ops.greater_than (or_zero ops v) hi ≡ false)
    unfolding reduce
    reduce-median_between hash lo hi items f mode_quorum numeric enough low high =
        let s = sort_items ops items in
        let (same, _, under) = sort_items-counts lo items in
        let (_, over, _) = sort_items-counts hi items in
        let sorted = sort_items-Sorted items in
        let (v, at) = get_elem?-some ((length s - 1) / 2) s (omega arith) in
        (
          v,
          median-some items numeric at,
          up_to_below lo ((length s - 1) / 2) s sorted at (omega arith),
          from_above hi ((length s - 1) / 2) s sorted at (omega arith),
        )
