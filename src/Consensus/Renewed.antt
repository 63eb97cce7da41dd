-- ===== src/Consensus/Renewed.antt =====
-- What Outcome keeps of a workflow from one round to the next.
use Prim.Native.String.{String}
use chainlink_common.Base.{
  ℕ, ◌+◌, ◌-◌, ◌^◌, ◌%◌, ◌≡◌, ◌≤◌, ◌<◌, refl, sym, inl, inr, ◌∙◌, List, [], ◌∷◌, Option, none, some,
  Dict, lookup, string_eq, get_elem?, ltb, leb, if◌then◌else◌, arith, Option-cases,
}
use chainlink_common.Consensus.Types.{RequestId, Time, AggregationOutcome, Wire, Plugin}
use chainlink_common.Consensus.Votes.{Votes, count_at}
use chainlink_common.Consensus.Round.{
  Round, load, deref, is_seen, is_stale, prune, read_outcomes, report_ids, conclude,
}
use chainlink_common.Consensus.Pruning.{
  keyed, pruned, load-Owned, load-counts, read_outcomes-lookup, prune-lookup, prune-keyed,
  lookup-points,
}
use chainlink_common.Consensus.Carried.{
  get_elem?-last, get_elem?-append, ZeroLastSeen, Kept, report_ids-Kept,
}

module _ {B L C Val V : Type 0} (wire : Wire B L C Val V) (r : Plugin C Val V) where
  load-lookup :
      (m : Dict String (AggregationOutcome V C)) (w : String)
      → deref (load m).heap (lookup w (load m).outcomes) ≡ lookup w m
  unfolding load lookup deref
  load-lookup [] w = refl
  load-lookup ((k, o) ∷ m) w = elim (Option-cases (lookup w (load m).outcomes)) [
    | inl n ↦ ground (arith, load-lookup m w, get_elem?-last (load m).heap o)
    | inr (q, n) ↦ ground (
      arith,
      load-lookup m w,
      get_elem?-last (load m).heap o,
      load-counts m w q,
      lookup-points w q (load m).outcomes n,
      get_elem?-append (load m).heap (o ∷ []) q,
    )
  ]

  read_outcomes-keyed :
      (w : String) (m : Dict String ℕ) (heap : List (AggregationOutcome V C))
      → keyed w (read_outcomes heap m) ≤ keyed w m
  unfolding read_outcomes
  read_outcomes-keyed w [] heap = omega arith
  read_outcomes-keyed w ((k, p) ∷ m) heap = elim (Option-cases (get_elem? heap p)) [
    | inl e ↦ ground (arith, read_outcomes-keyed w m heap)
    | inr (o, e) ↦ ground (arith, read_outcomes-keyed w m heap)
  ]

  -- The specification: the outcome of a workflow that enough oracles have registered is marked as
  -- seen in this round; another one is dropped once it was not seen for longer than the threshold.
  abbrev pub renewed :
      Votes C Val → ℕ → String → Option (AggregationOutcome V C) → Option (AggregationOutcome V C)
  renewed votes seq_nr w none = none
  renewed votes seq_nr w (some o) =
      if leb (r.f + 1) (count_at w votes.seen_workflow_ids)
      then some (record o { last_seen_at = seq_nr })
      else if ltb r.outcome_pruning_threshold (seq_nr - o.last_seen_at)
      then none
      else some o

  pruned-renewed :
      (votes : Votes C Val) (seq_nr : ℕ) (w : String) (before : Option (AggregationOutcome V C))
      → ((o : AggregationOutcome V C) → before ≡ some o → o.last_seen_at ≤ seq_nr)
      → seq_nr < 2 ^ 64
      → pruned r.f r.outcome_pruning_threshold seq_nr votes.seen_workflow_ids w before
        ≡ renewed votes seq_nr w before
  unfolding is_seen is_stale
  pruned-renewed votes seq_nr w none old h = refl
  pruned-renewed votes seq_nr w (some o) old h =
      let fine = old o refl in
      let wraps : (seq_nr + (2 ^ 64 - o.last_seen_at)) % 2 ^ 64 ≡ seq_nr - o.last_seen_at =
        omega arith in
      ground (arith, wraps)

  renewed-old :
      (votes : Votes C Val) (seq_nr : ℕ) (w : String) (before : Option (AggregationOutcome V C))
      → ((o : AggregationOutcome V C) → before ≡ some o → o.last_seen_at ≤ seq_nr)
      → (o : AggregationOutcome V C) → renewed votes seq_nr w before ≡ some o
      → o.last_seen_at ≤ seq_nr
  renewed-old votes seq_nr w none old o e = cc
  renewed-old votes seq_nr w (some x) old o e = let fine = old x refl in ground arith

  module _ (votes : Votes C Val) (time : Option Time) (seq_nr : ℕ) (ids : List (Option RequestId))
      (previous : Dict String (AggregationOutcome V C)) where
    -- The outcome of a workflow when the pruning starts.
    abbrev pub at_pruning : String → Option (AggregationOutcome V C)
    at_pruning w =
        let s = report_ids wire r votes time ids (load previous) in
        deref s.heap (lookup w s.outcomes)

    -- Let the previous outcomes be those of a map, with no round in LastSeenAt behind the current
    -- one. Then so are the new ones, each of them is what the specification makes of the outcome
    -- that the loop over the query leaves, and the difference of rounds does not wrap around.
    pub conclude-renews :
        ((w : String) → keyed w previous ≤ 1)
        → ((w : String) (o : AggregationOutcome V C)
            → lookup w previous ≡ some o
            → o.last_seen_at ≤ seq_nr)
        → ZeroLastSeen wire r
        → seq_nr < 2 ^ 64
        → let result = (conclude wire r votes time seq_nr ids previous).0.outcomes in
          ((w : String) → lookup w result ≡ renewed votes seq_nr w (at_pruning w))
          × ((w : String) → keyed w result ≤ 1)
          × ((w : String) (o : AggregationOutcome V C)
              → lookup w result ≡ some o
              → o.last_seen_at ≤ seq_nr)
    unfolding conclude
    conclude-renews distinct old zeroes h = (
      found,
      one_key,
      λ w o e. renewed-old votes seq_nr w (at_pruning w) (kept.old w) o (sym (found w) ∙ e),
    )
      where
        s : Round V C
        s = report_ids wire r votes time ids (load previous)

        kept : Kept wire r seq_nr s
        kept = report_ids-Kept wire r votes time seq_nr ids (load previous) zeroes (record {
          owned = load-Owned previous distinct;
          old = λ w o e. old w o (sym (load-lookup previous w) ∙ e);
        })

        left : Dict String ℕ × List (AggregationOutcome V C) × List String
        left =
            prune r.f r.outcome_pruning_threshold seq_nr votes.seen_workflow_ids s.outcomes s.heap

        one_left : (w : String) → keyed w left.0 ≤ 1
        one_left w = omega (
          arith,
          prune-keyed r.f r.outcome_pruning_threshold seq_nr votes.seen_workflow_ids w s.outcomes
              s.heap,
          kept.owned.one_key w,
        )

        found :
            (w : String)
            → lookup w (read_outcomes left.1 left.0) ≡ renewed votes seq_nr w (at_pruning w)
        found w =
            read_outcomes-lookup r.f r.outcome_pruning_threshold seq_nr votes.seen_workflow_ids w
              left.0 left.1 (one_left w)
            ∙ prune-lookup r.f r.outcome_pruning_threshold seq_nr votes.seen_workflow_ids w
                s.outcomes s.heap kept.owned.one_place (kept.owned.one_key w)
            ∙ pruned-renewed votes seq_nr w (at_pruning w) (kept.old w) h

        one_key : (w : String) → keyed w (read_outcomes left.1 left.0) ≤ 1
        one_key w = omega (arith, read_outcomes-keyed w left.0 left.1, one_left w)
