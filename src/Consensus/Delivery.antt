-- ===== src/Consensus/Delivery.antt =====
-- Reports passes every step on, also one whose outcome is not to be sent.
use chainlink_common.Base.{
  ◌≡◌, ◌⊎◌, refl, sym, subst, inl, inr, List, [], ◌∷◌, Option, none, some, Bool, false,
  Result-cases, ok, arith, Option-cases,
}
use chainlink_common.Consensus.Types.{RequestId, AggregationOutcome}
use chainlink_common.Consensus.Reports.{
  Report, Encoding, Attempt, skipped, failed, ReportsError, raw_report, attempt,
  marshal_report_info, report_all, reports,
}

-- A member of a list.
pub data Among {A : Type 0} (a : A) : List A → Type 0 where
  first : (rest : List A) → Among a (a ∷ rest)
  later : (b : A) (rest : List A) → Among a rest → Among a (b ∷ rest)

-- A report is left out or the call fails, or there is something to add.
Attempt-cases :
    {B : Type 0} (x : Attempt B)
    → ((x ≡ skipped) ⊎ ((e : ReportsError) × (x ≡ failed e)))
      ⊎ ((raw : Option B) × (x ≡ raw_report raw))
Attempt-cases skipped = inl (inl refl)
Attempt-cases (failed e) = inl (inr (e, refl))
Attempt-cases (raw_report raw) = inr (raw, refl)

module _ {B V C M S : Type 0} (encoding : Encoding B V C M S) (done : RequestId → Bool) where
  -- What the loop does with one report that is not nil.
  report_all-cons :
      (r : Report V C) (rs : List (Option (Report V C))) (out : List (Option B × B))
      → report_all encoding done (some r ∷ rs) ≡ ok out
      → (rest : List (Option B × B)) × (report_all encoding done rs ≡ ok rest)
        × ((out ≡ rest) ⊎ ((x : Option B × B) × (out ≡ x ∷ rest)))
  unfolding report_all
  report_all-cons r rs out e = elim (Result-cases (report_all encoding done rs)) [
    | inl (rest, n) ↦ (rest, n, kept rest n)
    | inr (x, n) ↦ absurd (elim (Option-cases r.id) [
      | inl a ↦ ground arith
      | inr (id, a) ↦ elim (Option-cases r.outcome) [
        | inl b ↦ ground arith
        | inr (o, b) ↦ elim (Attempt-cases (attempt encoding (done id) o id)) [
          | inl c ↦ ground arith
          | inr (raw, c) ↦ elim (Option-cases (marshal_report_info encoding id o.should_report)) [
            | inl d ↦ ground arith
            | inr (info, d) ↦ ground arith
          ]
        ]
      ]
    ])
  ]
    where
      kept :
          (rest : List (Option B × B))
          → report_all encoding done rs ≡ ok rest
          → (out ≡ rest) ⊎ ((x : Option B × B) × (out ≡ x ∷ rest))
      kept rest n = elim (Option-cases r.id) [
        | inl a ↦ inl (ground arith)
        | inr (id, a) ↦ elim (Option-cases r.outcome) [
          | inl b ↦ inl (ground arith)
          | inr (o, b) ↦ elim (Attempt-cases (attempt encoding (done id) o id)) [
            | inl c ↦ inl (ground arith)
            | inr (raw, c) ↦ elim (Option-cases (marshal_report_info encoding id o.should_report)) [
              | inl d ↦ inl (ground arith)
              | inr (info, d) ↦ inr ((raw, info), ground arith)
            ]
          ]
        ]
      ]

  -- A report that is not to be sent takes its place in the result with no bytes.
  report_all-here :
      (r : Report V C) (rs : List (Option (Report V C))) (out : List (Option B × B))
      (id : RequestId) (o : AggregationOutcome V C) (info : B)
      → report_all encoding done (some r ∷ rs) ≡ ok out
      → r.id ≡ some id
      → r.outcome ≡ some o
      → o.should_report ≡ false
      → marshal_report_info encoding id false ≡ some info
      → (rest : List (Option B × B)) × (out ≡ (none, info) ∷ rest)
  unfolding report_all attempt
  report_all-here r rs out id o info e a b c d = elim (Result-cases (report_all encoding done rs)) [
    | inl (rest, n) ↦ (rest, ground arith)
    | inr (x, n) ↦ absurd (ground arith)
  ]

  report_all-Among :
      (rs : List (Option (Report V C))) (out : List (Option B × B)) (r : Report V C)
      (id : RequestId) (o : AggregationOutcome V C) (info : B)
      → report_all encoding done rs ≡ ok out
      → Among (some r) rs
      → r.id ≡ some id
      → r.outcome ≡ some o
      → o.should_report ≡ false
      → marshal_report_info encoding id false ≡ some info
      → Among (none, info) out
  unfolding report_all
  report_all-Among [] out r id o info e m a b c d = elim m [ ]
  report_all-Among (_ ∷ rs) out r id o info e (first _) a b c d =
      let (rest, f) = report_all-here r rs out id o info e a b c d in
      subst (Among (none, info)) (sym f) (first rest)
  report_all-Among (none ∷ rs) out r id o info e (later _ _ m) a b c d =
      report_all-Among rs out r id o info e m a b c d
  report_all-Among (some q ∷ rs) out r id o info e (later _ _ m) a b c d =
      let (rest, f, g) = report_all-cons q rs out e in
      let in_rest = report_all-Among rs rest r id o info f m a b c d in
      elim g [
        | inl same ↦ subst (Among (none, info)) (sym same) in_rest
        | inr (x, more) ↦ subst (Among (none, info)) (sym more) (later x rest in_rest)
      ]

  -- Where Reports succeeds, each report of the outcome that has an ID and an outcome not to be
  -- sent, and whose info can be marshalled, is in the result with that info and without bytes, so
  -- that the transmitter can mark the step as complete.
  pub reports-Among :
      (outcome : B) (rs : List (Option (Report V C))) (out : List (Option B × B)) (r : Report V C)
      (id : RequestId) (o : AggregationOutcome V C) (info : B)
      → encoding.unmarshal_reports outcome ≡ some rs
      → reports encoding done outcome ≡ ok out
      → Among (some r) rs
      → r.id ≡ some id
      → r.outcome ≡ some o
      → o.should_report ≡ false
      → marshal_report_info encoding id false ≡ some info
      → Among (none, info) out
  unfolding reports
  reports-Among outcome rs out r id o info u e m a b c d =
      report_all-Among rs out r id o info (ground arith) m a b c d
