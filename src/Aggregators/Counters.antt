-- ===== src/Aggregators/Counters.antt =====
-- The counters of the identical aggregator: what they count and which one is the highest.
use Prim.Native.String.{String}
use text.Mathlib.TextEquality.{eq_iff}
use chainlink_common.Base.{
  ℕ, zero, suc, ◌+◌, ◌*◌, ◌≡◌, ◌≢◌, ◌≤◌, ◌<◌, ◌⊎◌, inl, inr, refl, List, [], ◌∷◌, Option, none,
  some, Bool, false, length, get_elem?, ltb, ◌==◌, if◌then◌else◌, Dict, lookup, insert,
  lookup-insert, string_eq, Result, ok, err, arith, Option-cases, Bool-cases, beq_refl,
}
use chainlink_common.Aggregators.Identical.{
  Counter, AggregateError, is_ignored, highest, winners, bump, no_counters,
}

abbrev pub keyed : {A : Type 0} → String → Dict String A → ℕ
keyed w [] = 0
keyed w ((k, _) ∷ m) = let n = keyed w m in if string_eq.beq k w then suc n else n

keyed-insert :
    {A : Type 0} (w k : String) (a : A) (m : Dict String A)
    → keyed w (insert k a m)
      ≡ (if string_eq.beq k w then (if keyed w m == 0 then 1 else keyed w m) else keyed w m)
unfolding insert
keyed-insert w k a [] = refl
keyed-insert w k a ((j, b) ∷ m) =
    ground (arith, eq_iff k w, eq_iff j w, eq_iff j k, keyed-insert w k a m)

pub lookup-keyed :
    {A : Type 0} (w : String) (m : Dict String A) (a : A) → lookup w m ≡ some a → keyed w m ≢ 0
unfolding lookup
lookup-keyed w [] a e = cc
lookup-keyed w ((k, b) ∷ m) a e = ground (arith, lookup-keyed w m a)

pub get-no_counters :
    {Val : Type 0} (n i : ℕ) → i < n → get_elem? (no_counters {Val = Val} n) i ≡ some []
unfolding no_counters
get-no_counters zero i h = elim h [ ]
get-no_counters (suc n) zero h = refl
get-no_counters (suc n) (suc i) h = get-no_counters n i (omega arith)

pub length-no_counters : (Val : Type 0) (n : ℕ) → length (no_counters {Val = Val} n) ≡ n
unfolding no_counters
length-no_counters Val zero = refl
length-no_counters Val (suc n) = omega (arith, length-no_counters Val n)

module _ {Val : Type 0} where
  abbrev pub counted : String → Dict String (Counter Val) → ℕ
  counted sha m = elim (lookup sha m) [ none ↦ 0 | some c ↦ c.count ]

  highest-ge :
      (best : Counter Val) (m : Dict String (Counter Val)) → best.count ≤ (highest best m).count
  unfolding highest
  highest-ge best [] = omega arith
  highest-ge best ((sha, c) ∷ m) = ground (arith, highest-ge best m, highest-ge c m)

  highest-counted :
      (sha : String) (best : Counter Val) (m : Dict String (Counter Val))
      → counted sha m ≤ (highest best m).count
  unfolding highest lookup
  highest-counted sha best [] = omega arith
  highest-counted sha best ((k, c) ∷ m) = ground (
    arith,
    highest-ge best m,
    highest-ge c m,
    highest-counted sha best m,
    highest-counted sha c m,
  )

  -- The highest counter is the first best one or that of some key.
  pub highest-entry :
      (best : Counter Val) (m : Dict String (Counter Val))
      → ((sha : String) → keyed sha m ≤ 1)
      → (highest best m ≡ best) ⊎ ((sha : String) × (lookup sha m ≡ some (highest best m)))
  unfolding highest lookup
  highest-entry best [] d = inl refl
  highest-entry best ((k, c) ∷ m) d = elim (Bool-cases (ltb best.count c.count)) [
    | inl e ↦
        rw (e, highest)
          (elim (highest-entry c m (λ s. ground (arith, d s))) [
            | inl f ↦ inr (k, ground (arith, beq_refl k))
            | inr (sha, f) ↦
                inr (sha, ground (arith, eq_iff k sha, d sha, lookup-keyed sha m (highest c m) f))
          ])
    | inr e ↦
        rw (e, highest)
          (elim (highest-entry best m (λ s. ground (arith, d s))) [
            | inl f ↦ inl f
            | inr (sha, f) ↦
                inr
                  (sha, ground (arith, eq_iff k sha, d sha, lookup-keyed sha m (highest best m) f))
          ])
  ]

  abbrev pub best_of : Dict String (Counter Val) → Counter Val
  best_of m = highest (record { full_observation = none; count = 0 }) m

  winners-cons :
      (f idx : ℕ) (m : Dict String (Counter Val)) (ms : List (Dict String (Counter Val)))
      (vs : List (Option Val))
      → winners f idx (m ∷ ms) ≡ ok vs
      → (vs' : List (Option Val)) × (vs ≡ (best_of m).full_observation ∷ vs')
        × (winners f (suc idx) ms ≡ ok vs')
        × (2 * f + 1 ≤ (best_of m).count)
  unfolding winners
  winners-cons f idx m ms vs e = go (winners f (suc idx) ms) refl
    where
      go :
          (x : Result AggregateError (List (Option Val)))
          → winners f (suc idx) ms ≡ x
          → (vs' : List (Option Val)) × (vs ≡ (best_of m).full_observation ∷ vs')
            × (winners f (suc idx) ms ≡ ok vs')
            × (2 * f + 1 ≤ (best_of m).count)
      go (ok vs') h = (vs', ground arith, h, ground arith)
      go (err x) h = absurd (ground arith)

  pub winners-get :
      (f idx i : ℕ) (ms : List (Dict String (Counter Val))) (vs : List (Option Val))
      (m : Dict String (Counter Val))
      → winners f idx ms ≡ ok vs
      → get_elem? ms i ≡ some m
      → (get_elem? vs i ≡ some (best_of m).full_observation) × (2 * f + 1 ≤ (best_of m).count)
  winners-get f idx i [] vs m e g = cc
  winners-get f idx zero (n ∷ ms) vs m e g =
      let (vs', a, b, c) = winners-cons f idx n ms vs e in (ground arith, ground arith)
  winners-get f idx (suc i) (n ∷ ms) vs m e g =
      let (vs', a, b, c) = winners-cons f idx n ms vs e in
      let (d, h) = winners-get f (suc idx) i ms vs' m b g in (ground arith, h)

  pub bump-counted :
      (sha sha' : String) (o : Option Val) (m : Dict String (Counter Val))
      → counted sha' (bump sha o m) ≡ (if string_eq.beq sha sha' then 1 else 0) + counted sha' m
  unfolding bump
  bump-counted sha sha' o m = elim (Option-cases (lookup sha m)) [
    | inl n ↦ ground (
      arith,
      eq_iff sha sha',
      lookup-insert sha sha' (record { full_observation = o; count = 1 }) m,
    )
    | inr (c, n) ↦
        ground (arith, eq_iff sha sha', lookup-insert sha sha' (record c { count = suc c.count }) m)
  ]

module _ {Val : Type 0} (hash : Option Val → Option String) where
  -- The specification: whether a node counts at an index for a hash, and how many do.
  abbrev pub votes_for : ℕ → ℕ → String → List (Option Val) → Bool
  votes_for expected idx sha os =
      if is_ignored expected os then false else elim (get_elem? os idx) [
        | none ↦ false
        | some o ↦ elim (hash o) [ none ↦ false | some h ↦ string_eq.beq h sha ]
      ]

  abbrev pub agreeing : ℕ → ℕ → String → Dict ℕ (List (Option Val)) → ℕ
  agreeing expected idx sha [] = 0
  agreeing expected idx sha ((node, os) ∷ rest) =
      let n = agreeing expected idx sha rest in if votes_for expected idx sha os then suc n else n

  pub record Tallied (m : Dict String (Counter Val)) : Type 0 where
    pub one_key : (sha : String) → keyed sha m ≤ 1
    pub hashed :
        (sha : String) (c : Counter Val)
        → lookup sha m ≡ some c
        → hash c.full_observation ≡ some sha

  pub bump-Tallied :
      (sha : String) (o : Option Val) (m : Dict String (Counter Val))
      → hash o ≡ some sha
      → Tallied m
      → Tallied (bump sha o m)
  unfolding bump
  bump-Tallied sha o m e v = elim (Option-cases (lookup sha m)) [
    | inl n ↦
        let c' : Counter Val = record { full_observation = o; count = 1 } in
        record {
          one_key = λ s. ground (arith, v.one_key s, keyed-insert s sha c' m);
          hashed = λ s d l. ground (arith, v.hashed s d, eq_iff sha s, lookup-insert sha s c' m);
        }
    | inr (c, n) ↦
        let c' : Counter Val = record c { count = suc c.count } in
        record {
          one_key = λ s. ground (arith, v.one_key s, keyed-insert s sha c' m);
          hashed = λ s d l.
              ground (arith, v.hashed s d, v.hashed s c, eq_iff sha s, lookup-insert sha s c' m);
        }
  ]
