-- ===== src/Consensus/Timestamps.antt =====
-- The final timestamp lies between the times of oracles that are right, if most are.
use chainlink_common.Base.{
  ℕ, zero, suc, ◌+◌, ◌-◌, ◌*◌, ◌/◌, ◌%◌, ◌≡◌, ◌≢◌, ◌≤◌, ◌<◌, ◌↔◌, refl, inl, inr, List, [], ◌∷◌,
  Option, none, some, length, get_elem?, ltb, ◌==◌, if◌then◌else◌, arith, Bool-cases,
}
use chainlink_common.Consensus.Types.{Time}
use chainlink_common.Consensus.Round.{as_time, before, insert_time, sort_times, final_timestamp}

-- The seconds of a time, and how many times of a list are under or over a bound.
abbrev pub seconds : Option Time → ℕ
seconds t = (as_time t).sec

abbrev pub earlier : ℕ → List (Option Time) → ℕ
earlier lo [] = 0
earlier lo (t ∷ ts) = let n = earlier lo ts in if ltb (seconds t) lo then suc n else n

abbrev pub later : ℕ → List (Option Time) → ℕ
later hi [] = 0
later hi (t ∷ ts) = let n = later hi ts in if ltb hi (seconds t) then suc n else n

-- Every time of a list is at least a bound.
abbrev AllFrom : ℕ → List (Option Time) → Type 0
AllFrom s [] = Unit
AllFrom s (t ∷ ts) = (s ≤ seconds t) × AllFrom s ts

abbrev Sorted : List (Option Time) → Type 0
Sorted [] = Unit
Sorted (t ∷ ts) = AllFrom (seconds t) ts × Sorted ts

AllFrom-le : (s s' : ℕ) (ts : List (Option Time)) → s' ≤ s → AllFrom s ts → AllFrom s' ts
AllFrom-le s s' [] h a = tt
AllFrom-le s s' (t ∷ ts) h (a, b) = (omega arith, AllFrom-le s s' ts h b)

insert_time-counts :
    (s : ℕ) (t : Option Time) (ts : List (Option Time))
    → (length (insert_time t ts) ≡ suc (length ts))
      × (earlier s (insert_time t ts) ≡ earlier s (t ∷ ts))
      × (later s (insert_time t ts) ≡ later s (t ∷ ts))
unfolding insert_time
insert_time-counts s t [] = (refl, refl, refl)
insert_time-counts s t (u ∷ us) = ground (arith, insert_time-counts s t us)

insert_time-AllFrom :
    (s : ℕ) (t : Option Time) (ts : List (Option Time))
    → s ≤ seconds t
    → AllFrom s ts
    → AllFrom s (insert_time t ts)
unfolding insert_time
insert_time-AllFrom s t [] h a = (h, tt)
insert_time-AllFrom s t (u ∷ us) h (a, b) = elim (Bool-cases (before (as_time u) (as_time t))) [
  | inl e ↦ rw (e, insert_time) (a, insert_time-AllFrom s t us h b)
  | inr e ↦ rw (e, insert_time) (h, (a, b))
]

insert_time-Sorted :
    (t : Option Time) (ts : List (Option Time)) → Sorted ts → Sorted (insert_time t ts)
unfolding insert_time
insert_time-Sorted t [] v = (tt, tt)
insert_time-Sorted t (u ∷ us) (a, v) = elim (Bool-cases (before (as_time u) (as_time t))) [
  | inl e ↦
      rw (e, insert_time)
        (
          insert_time-AllFrom (seconds u) t us (unfold before in ground arith) a,
          insert_time-Sorted t us v,
        )
  | inr e ↦
      let h : seconds t ≤ seconds u = unfold before in ground arith in
      rw (e, insert_time) ((h, AllFrom-le (seconds u) (seconds t) us h a), (a, v))
]

sort_times-Sorted : (ts : List (Option Time)) → Sorted (sort_times ts)
unfolding sort_times
sort_times-Sorted [] = tt
sort_times-Sorted (t ∷ ts) = insert_time-Sorted t (sort_times ts) (sort_times-Sorted ts)

sort_times-counts :
    (s : ℕ) (ts : List (Option Time))
    → (length (sort_times ts) ≡ length ts)
      × (earlier s (sort_times ts) ≡ earlier s ts)
      × (later s (sort_times ts) ≡ later s ts)
unfolding sort_times
sort_times-counts s [] = (refl, refl, refl)
sort_times-counts s (t ∷ ts) =
    ground (arith, insert_time-counts s t (sort_times ts), sort_times-counts s ts)

AllFrom-get :
    (s i : ℕ) (ts : List (Option Time)) {t : Option Time}
    → AllFrom s ts
    → get_elem? ts i ≡ some t
    → s ≤ seconds t
AllFrom-get s i [] a e = cc
AllFrom-get s zero (u ∷ us) (a, b) e = ground arith
AllFrom-get s (suc i) (u ∷ us) (a, b) e = AllFrom-get s i us b e

later-AllFrom :
    (hi s : ℕ) (ts : List (Option Time)) → AllFrom s ts → hi < s → later hi ts ≡ length ts
later-AllFrom hi s [] a h = refl
later-AllFrom hi s (t ∷ ts) (a, b) h = ground (arith, later-AllFrom hi s ts b h)

-- Where the count of the early ones is used up, the times reach the bound.
from_earlier :
    (lo i : ℕ) (ts : List (Option Time)) {t : Option Time}
    → Sorted ts
    → get_elem? ts i ≡ some t
    → earlier lo ts ≤ i
    → lo ≤ seconds t
from_earlier lo i [] v e h = cc
from_earlier lo zero (u ∷ us) (a, v) e h = ground arith
from_earlier lo (suc i) (u ∷ us) (a, v) e h =
    ground (arith, from_earlier lo i us v e, AllFrom-get (seconds u) i us a e)

up_to_later :
    (hi i : ℕ) (ts : List (Option Time)) {t : Option Time}
    → Sorted ts
    → get_elem? ts i ≡ some t
    → i + later hi ts < length ts
    → seconds t ≤ hi
up_to_later hi i [] v e h = cc
up_to_later hi zero (u ∷ us) (a, v) e h = ground (arith, later-AllFrom hi (seconds u) us a)
up_to_later hi (suc i) (u ∷ us) (a, v) e h = ground (arith, up_to_later hi i us v e)

get_elem?-some :
    (i : ℕ) (ts : List (Option Time))
    → i < length ts
    → (t : Option Time) × (get_elem? ts i ≡ some t)
get_elem?-some i [] h = absurd (omega arith)
get_elem?-some zero (t ∷ ts) h = (t, refl)
get_elem?-some (suc i) (t ∷ ts) h = get_elem?-some i ts (omega arith)

-- If the times before `lo` are less than half of all, and so are those after `hi`, then there is a
-- final timestamp, and its second lies between the two.
pub final_timestamp-between :
    (lo hi : ℕ) (ts : List (Option Time))
    → 2 * earlier lo ts < length ts
    → 2 * later hi ts < length ts
    → (t : Option Time) × (final_timestamp ts ≡ some t) × (lo ≤ seconds t) × (seconds t ≤ hi)
unfolding final_timestamp
final_timestamp-between lo hi ts a b =
    let s = sort_times ts in
    let (same, low, _) = sort_times-counts lo ts in
    let (_, _, high) = sort_times-counts hi ts in
    let v = sort_times-Sorted ts in
    let mid = length s / 2 in
    let (y, at_mid) = get_elem?-some mid s (omega arith) in
    let y_low = from_earlier lo mid s v at_mid (omega arith) in
    let y_high = up_to_later hi mid s v at_mid (omega arith) in
    elim (Bool-cases (length s % 2 == 1)) [
      | inl odd ↦ (y, ground arith, y_low, y_high)
      | inr even ↦
          let (x, at_x) = get_elem?-some (mid - 1) s (omega arith) in
          let even' : length s % 2 ≢ 1 = ground arith in
          let x_low = from_earlier lo (mid - 1) s v at_x (omega arith) in
          let x_high = up_to_later hi (mid - 1) s v at_x (omega arith) in
          (
            some (record { sec = seconds x + (seconds y - seconds x) / 2; nsec = 0 }),
            ground arith,
            unfold as_time in omega arith,
            unfold as_time in omega arith,
          )
    ]

-- There is a final timestamp exactly if there are timestamps.
pub final_timestamp-none : (ts : List (Option Time)) → (final_timestamp ts ≡ none) ↔ (ts ≡ [])
unfolding final_timestamp sort_times
final_timestamp-none [] = (λ e. refl, λ e. refl)
final_timestamp-none (t ∷ ts) =
    let s = sort_times (t ∷ ts) in
    let (same, _, _) = sort_times-counts 0 (t ∷ ts) in
    let mid = length s / 2 in
    let (y, at_mid) = get_elem?-some mid s (omega arith) in
    elim (Bool-cases (length s % 2 == 1)) [
      | inl odd ↦ (λ e. ground arith, λ e. cc)
      | inr even ↦
          let even' : length s % 2 ≢ 1 = ground arith in
          let (x, at_x) = get_elem?-some (mid - 1) s (omega arith) in (λ e. ground arith, λ e. cc)
    ]
