-- ===== src/Services/ErrorBuffer.antt =====
-- ErrorBuffer of pkg/services/state.go. Each method holds the buffer's mutex throughout, so it is
-- one atomic function on the state. An `error` is an `Option E`, and `none` is Go's nil.
use mathlib.Core.List.{append-nil, append_assoc}
use native.Mathlib.Decide.{dec_lt}
use chainlink_common.Base.{
  ℕ, suc, ◌-◌, ◌≤◌, ◌<◌, ◌≡◌, ap, ◌∙◌, List, [], ◌∷◌, ◌++◌, Option, none, some, not, ◌&&◌, arith,
  length, drop, ltb, ◌==◌, if◌then◌else◌, length-append, length-drop, drop-append, drop-drop_one,
}

pub record ErrorBuffer {ℓ} (E : Type ℓ) : Type ℓ where
  pub buffer : List (Option E)
  pub cap : ℕ

module _ {ℓ} {E : Type ℓ} where
  -- `errors.Join` drops nil errors; the empty list is its nil result.
  unfoldable pub join : List (Option E) → List E
  join [] = []
  join (none ∷ es) = join es
  join (some e ∷ es) = e ∷ join es

  unfoldable pub flush : ErrorBuffer E → ErrorBuffer E × List E
  flush eb = (record eb { buffer = [] }, join eb.buffer)

  unfoldable pub append : ErrorBuffer E → Option E → ErrorBuffer E
  append eb incoming =
      if length eb.buffer == eb.cap && not (eb.cap == 0)
      then record eb { buffer = drop 1 eb.buffer ++ incoming ∷ [] }
      else record eb { buffer = eb.buffer ++ incoming ∷ [] }

  unfoldable pub set_cap : ErrorBuffer E → ℕ → ErrorBuffer E
  set_cap eb cap =
      if ltb cap (length eb.buffer)
      then record { buffer = drop (length eb.buffer - cap) eb.buffer; cap = cap }
      else record eb { cap = cap }

  unfoldable pub append_all : ErrorBuffer E → List (Option E) → ErrorBuffer E
  append_all eb [] = eb
  append_all eb (e ∷ es) = append_all (append eb e) es

  -- The most recent `cap` entries of a history.
  abbrev pub recent : ℕ → List (Option E) → List (Option E)
  recent cap es = drop (length es - cap) es

  module _ (cap : ℕ) (es : List (Option E)) (e : Option E) where
    recent-room : length es < cap → recent cap (es ++ e ∷ []) ≡ recent cap es ++ e ∷ []
    recent-room h = rw (none_dropped, none_dropped_before)
      where
        none_dropped : length (es ++ e ∷ []) - cap ≡ 0
        none_dropped = omega (arith, length-append es (e ∷ []))

        none_dropped_before : length es - cap ≡ 0
        none_dropped_before = omega arith

    recent-full :
        0 < cap → cap ≤ length es → recent cap (es ++ e ∷ []) ≡ drop 1 (recent cap es) ++ e ∷ []
    recent-full pos h =
        rw (one_more, drop-append (suc (length es - cap)) es (e ∷ []) (omega arith))
          (rw (drop-drop_one (length es - cap) es))
      where
        one_more : length (es ++ e ∷ []) - cap ≡ suc (length es - cap)
        one_more = omega (arith, length-append es (e ∷ []))

  append-cap : (eb : ErrorBuffer E) (e : Option E) → (append eb e).cap ≡ eb.cap
  unfolding append
  append-cap eb e = ground arith

  module _ (cap : ℕ) (pos : 0 < cap) where
    recent-append :
        (es : List (Option E)) (e : Option E) (eb : ErrorBuffer E)
        → eb.cap ≡ cap
        → eb.buffer ≡ recent cap es
        → (append eb e).buffer ≡ recent cap (es ++ e ∷ [])
    unfolding append
    recent-append es e eb hc hb = elim (dec_lt (length es) cap) [
      | yes room ↦ rw (recent-room cap es e room) (ground (arith, held))
      | no full ↦ rw (recent-full cap es e pos (omega arith)) (ground (arith, held))
    ]
      where
        held : length eb.buffer ≡ length es - (length es - cap)
        held = ap length hb ∙ length-drop (length es - cap) es

    append_all-recent :
        (es fresh : List (Option E)) (eb : ErrorBuffer E)
        → eb.cap ≡ cap
        → eb.buffer ≡ recent cap es
        → append_all eb fresh ≡ record { buffer = recent cap (es ++ fresh); cap = cap }
    unfolding append_all
    append_all-recent es [] eb hc hb = ground (arith, append-nil es)
    append_all-recent es (e ∷ fresh) eb hc hb =
        rw
          (append_all-recent (es ++ e ∷ []) fresh (append eb e) (append-cap eb e ∙ hc)
            (recent-append es e eb hc hb))
          (rw append_assoc)

  set_cap-recent :
      (eb : ErrorBuffer E) (cap : ℕ)
      → set_cap eb cap ≡ record { buffer = recent cap eb.buffer; cap = cap }
  unfolding set_cap
  set_cap-recent eb cap = elim (dec_lt cap (length eb.buffer)) [
    | yes over ↦ ground arith
    | no room ↦ let z : length eb.buffer - cap ≡ 0 = omega arith in rw z (ground arith)
  ]

-- A buffer given the capacity `cap`, at least one, and then any list of errors, flushes the newest
-- `cap` of all errors that it was given before and since, oldest first and without the nil ones,
-- and is empty afterwards with the same capacity.
pub flush-append_all {ℓ} :
    {E : Type ℓ} (cap : ℕ) (eb : ErrorBuffer E) (es : List (Option E))
    → 0 < cap
    → flush (append_all (set_cap eb cap) es)
      ≡ (record { buffer = []; cap = cap }, join (recent cap (eb.buffer ++ es)))
unfolding flush
flush-append_all cap eb es pos = rw (
    append_all-recent cap pos eb.buffer es (set_cap eb cap) (rw (set_cap-recent eb cap))
      (rw (set_cap-recent eb cap)))
