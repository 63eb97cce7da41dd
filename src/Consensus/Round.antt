-- ===== src/Consensus/Round.antt =====
-- pkg/capabilities/consensus/ocr3/reporting_plugin.go: the rest of Outcome. The loop over the query
-- puts one pointer to an outcome both in a report and in the map of outcomes, and the pruning loop
-- writes through it, so outcomes are kept in a heap: a pointer is a place in that list.
use Prim.Native.String.{String}
use chainlink_common.Base.{
  ℕ, ◌+◌, ◌-◌, ◌*◌, ◌/◌, ◌%◌, ◌^◌, List, [], ◌∷◌, ◌++◌, Option, none, some, Bool, true, false, Dict,
  lookup, insert, string_eq, length, get_elem?, set, ltb, leb, ◌==◌, if◌then◌else◌, Result, ok, err,
}
use chainlink_common.Consensus.Types.{
  RequestId, Time, AggregationOutcome, Outcome, Wire, Plugin, aggregate_failed, aggregate_panicked,
}
use chainlink_common.Consensus.Votes.{Votes, count_at, count_observations, no_votes}

-- AsTime: nil is the start of 1970, and whole seconds of the nanoseconds are carried.
unfoldable pub as_time : Option Time → Time
as_time none = record { sec = 62135596800; nsec = 0 }
as_time (some t) = record { sec = t.sec + t.nsec / 1_000_000_000; nsec = t.nsec % 1_000_000_000 }

unfoldable pub before : Time → Time → Bool
before a b = if a.sec == b.sec then ltb a.nsec b.nsec else ltb a.sec b.sec

-- slices.SortFunc by AsTime.
unfoldable pub insert_time : Option Time → List (Option Time) → List (Option Time)
insert_time t [] = t ∷ []
insert_time t (u ∷ us) =
    let rest = insert_time t us in if before (as_time u) (as_time t) then u ∷ rest else t ∷ u ∷ us

unfoldable pub sort_times : List (Option Time) → List (Option Time)
sort_times [] = []
sort_times (t ∷ ts) = insert_time t (sort_times ts)

-- The middle time. None is the read out of range: with no times at all, the second branch reads
-- sortedTimestamps[-1].
unfoldable pub final_timestamp : List (Option Time) → Option (Option Time)
final_timestamp timestamps =
    let sorted = sort_times timestamps in
    let mid = length sorted / 2 in
    if length sorted % 2 == 1
    then get_elem? sorted mid
    else if mid == 0
    then none
    else elim (get_elem? sorted (mid - 1)) [
      | none ↦ none
      | some a ↦ elim (get_elem? sorted mid) [
        | none ↦ none
        | some b ↦
            let s = (as_time a).sec in
            some (some (record { sec = s + ((as_time b).sec - s) / 2; nsec = 0 }))
      ]
    ]

pub record Round (V C : Type 0) : Type 0 where
  pub heap : List (AggregationOutcome V C)
  pub outcomes : Dict String ℕ
  pub current_reports : List (ℕ × RequestId)
  pub panicked : Bool

-- The range over shaToCount: the first encoder that enough observations ask for.
unfoldable pub agreed_encoder :
    {C : Type 0} → ℕ → Dict String (String × C) → Dict String ℕ → Option (String × C)
agreed_encoder f sha_to_encoder [] = none
agreed_encoder f sha_to_encoder ((sha, count) ∷ rest) =
    let other = agreed_encoder f sha_to_encoder rest in
    if leb (2 * f + 1) count
    then elim (lookup sha sha_to_encoder) [ none ↦ other | some e ↦ some e ]
    else other

-- The tests of the pruning loop.
unfoldable pub is_seen : ℕ → Dict String ℕ → String → Bool
is_seen f seen workflow_id = leb (f + 1) (count_at workflow_id seen)

unfoldable pub is_stale : ℕ → ℕ → ℕ → Bool
is_stale threshold seq_nr last_seen_at = ltb threshold ((seq_nr + (2 ^ 64 - last_seen_at)) % 2 ^ 64)

module _ {V C : Type 0} where
  -- The outcomes that Unmarshal makes.
  unfoldable pub load : Dict String (AggregationOutcome V C) → Round V C
  load [] = record { heap = []; outcomes = []; current_reports = []; panicked = false }
  load ((k, o) ∷ m) =
      let rest = load m in
      record {
        heap = rest.heap ++ o ∷ [];
        outcomes = (k, length rest.heap) ∷ rest.outcomes;
        current_reports = [];
        panicked = false;
      }

  -- What Marshal reads through the pointers.
  unfoldable pub read_reports :
      List (AggregationOutcome V C)
      → List (ℕ × RequestId)
      → List (AggregationOutcome V C × RequestId)
  read_reports heap [] = []
  read_reports heap ((p, id) ∷ rs) = elim (get_elem? heap p) [
    | none ↦ read_reports heap rs
    | some o ↦ (o, id) ∷ read_reports heap rs
  ]

  unfoldable pub read_outcomes :
      List (AggregationOutcome V C) → Dict String ℕ → Dict String (AggregationOutcome V C)
  read_outcomes heap [] = []
  read_outcomes heap ((k, p) ∷ m) = elim (get_elem? heap p) [
    | none ↦ read_outcomes heap m
    | some o ↦ (k, o) ∷ read_outcomes heap m
  ]

  unfoldable pub deref : List (AggregationOutcome V C) → Option ℕ → Option (AggregationOutcome V C)
  deref heap none = none
  deref heap (some p) = get_elem? heap p

  unfoldable pub set_encoder : Option (String × C) → AggregationOutcome V C → AggregationOutcome V C
  set_encoder none o = o
  set_encoder (some (name, config)) o = record o { encoder_name = name; encoder_config = config }

  unfoldable pub carry_last_seen :
      Option (AggregationOutcome V C) → AggregationOutcome V C → AggregationOutcome V C
  carry_last_seen none o = o
  carry_last_seen (some previous) o = record o { last_seen_at = previous.last_seen_at }

  -- The range over the outcomes, with what is left of the map, the heap it writes to, and the
  -- workflows given to UnregisterWorkflowID.
  unfoldable pub prune :
      ℕ
      → ℕ
      → ℕ
      → Dict String ℕ
      → Dict String ℕ
      → List (AggregationOutcome V C)
      → Dict String ℕ × List (AggregationOutcome V C) × List String
  prune f threshold seq_nr seen [] heap = ([], heap, [])
  prune f threshold seq_nr seen ((w, p) ∷ m) heap = elim (get_elem? heap p) [
    | none ↦ prune f threshold seq_nr seen m heap
    | some o ↦ elim (is_seen f seen w) [
      | true ↦
          let (m', heap', gone) =
            prune f threshold seq_nr seen m (set heap p (record o { last_seen_at = seq_nr })) in
          ((w, p) ∷ m', heap', gone)
      | false ↦
          let (m', heap', gone) = prune f threshold seq_nr seen m heap in
          elim (is_stale threshold seq_nr o.last_seen_at) [
            | true ↦ (m', heap', w ∷ gone)
            | false ↦ ((w, p) ∷ m', heap', gone)
          ]
    ]
  ]

pub data PluginError : Type 0 where
  panics : PluginError
  bad_query : PluginError
  bad_outcome : PluginError
  bad_marshal : PluginError

module _ {B L C Val V : Type 0} (wire : Wire B L C Val V) (r : Plugin C Val V) where
  -- The outcome of one queried execution, behind the guards: enough oracles, an aggregator that
  -- succeeds, and the count of the encoders.
  unfoldable pub new_outcome :
      Votes C Val
      → Option Time
      → RequestId
      → Option (AggregationOutcome V C)
      → Option (AggregationOutcome V C)
  new_outcome votes time id previous =
      elim (lookup id.workflow_execution_id votes.exec_id_to_oracle_observations) [
        | none ↦ none
        | some obs ↦ elim (ltb (length obs) (2 * r.f + 1)) [
          | true ↦ none
          | false ↦ elim (r.get_aggregator id.workflow_id) [
            | none ↦ none
            | some aggregate ↦ elim (aggregate previous obs r.f) [
              | err e ↦ none
              | ok outcome ↦
                  elim (lookup id.workflow_execution_id votes.exec_id_to_encoder_sha_to_count) [
                    | none ↦ none
                    | some counts ↦ some (
                        set_encoder (agreed_encoder r.f votes.sha_to_encoder counts)
                          (record (carry_last_seen previous outcome) { timestamp = time }))
                  ]
            ]
          ]
        ]
      ]

  -- Whether an aggregator panics: behind the same guards.
  unfoldable pub aggregate_panics : Votes C Val → RequestId → Option (AggregationOutcome V C) → Bool
  aggregate_panics votes id previous =
      elim (lookup id.workflow_execution_id votes.exec_id_to_oracle_observations) [
        | none ↦ false
        | some obs ↦ elim (ltb (length obs) (2 * r.f + 1)) [
          | true ↦ false
          | false ↦ elim (r.get_aggregator id.workflow_id) [
            | none ↦ false
            | some aggregate ↦ elim (aggregate previous obs r.f) [
              | ok outcome ↦ false
              | err aggregate_failed ↦ false
              | err aggregate_panicked ↦ true
            ]
          ]
        ]
      ]

  -- The body of the loop over the IDs of the query.
  unfoldable pub report_id : Votes C Val → Option Time → Option RequestId → Round V C → Round V C
  report_id votes time none round = round
  report_id votes time (some id) round =
      elim (new_outcome votes time id (deref round.heap (lookup id.workflow_id round.outcomes))) [
        | none ↦ round
        | some outcome ↦ record {
          heap = round.heap ++ outcome ∷ [];
          outcomes = insert id.workflow_id (length round.heap) round.outcomes;
          current_reports = round.current_reports ++ (length round.heap, id) ∷ [];
          panicked = round.panicked;
        }
      ]

  unfoldable pub id_panics : Votes C Val → Option RequestId → Round V C → Bool
  id_panics votes none round = false
  id_panics votes (some id) round =
      aggregate_panics votes id (deref round.heap (lookup id.workflow_id round.outcomes))

  -- The loop, which a panic ends.
  unfoldable pub report_ids :
      Votes C Val → Option Time → List (Option RequestId) → Round V C → Round V C
  report_ids votes time [] round = round
  report_ids votes time (id ∷ ids) round = elim (id_panics votes id round) [
    | true ↦ record round { panicked = true }
    | false ↦ report_ids votes time ids (report_id votes time id round)
  ]

  -- The outcome behind the counts and the unmarshalled inputs.
  unfoldable pub conclude :
      Votes C Val
      → Option Time
      → ℕ
      → List (Option RequestId)
      → Dict String (AggregationOutcome V C)
      → Outcome V C × List String
  conclude votes time seq_nr ids previous =
      let round = report_ids votes time ids (load previous) in
      let (outcomes, heap, gone) =
        prune r.f r.outcome_pruning_threshold seq_nr votes.seen_workflow_ids round.outcomes
          round.heap in
      (
        record {
          outcomes = read_outcomes heap outcomes;
          current_reports = read_reports heap round.current_reports;
        },
        gone,
      )

  -- Outcome, with the workflows that it unregisters. What `conclude` makes of a round that a panic
  -- has ended is not used.
  unfoldable pub outcome : ℕ → B → B → List (ℕ × B) → Result PluginError (B × List String)
  outcome seq_nr previous_outcome query attributed_observations =
      let votes = count_observations wire attributed_observations no_votes in
      elim (final_timestamp votes.timestamps) [
        | none ↦ err panics
        | some time ↦ elim (wire.unmarshal_query query) [
          | none ↦ err bad_query
          | some ids ↦ elim (wire.unmarshal_outcome previous_outcome) [
            | none ↦ err bad_outcome
            | some previous ↦
                let (result, gone) = conclude votes time seq_nr ids previous.outcomes in
                elim (report_ids votes time ids (load previous.outcomes)).panicked [
                  | true ↦ err panics
                  | false ↦ elim (wire.marshal_outcome result) [
                    | none ↦ err bad_marshal
                    | some raw ↦ ok (raw, gone)
                  ]
                ]
          ]
        ]
      ]
