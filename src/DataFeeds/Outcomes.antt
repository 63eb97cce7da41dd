-- ===== src/DataFeeds/Outcomes.antt =====
-- What the outcome of feeds_aggregator.go carries: reports that are valid for signers which more
-- than f nodes vouch for.
use chainlink_common.Base.{
  ℕ, ◌≡◌, ◌+◌, ◌≤◌, refl, inl, inr, true, List, [], ◌∷◌, ◌++◌, All, Option, Option-cases, some,
  Bool-cases, Dict, lookup, lookup-insert, if◌then◌else◌, length, ◌==◌, ◌&&◌, not, refuse_if,
  or_fail, subst, ok, arith, >>=-eq-ok,
}
use chainlink_common.Base.Int.{ℤ, pos, eq_ℤ}
use chainlink_common.Base.Bytes.{Bytes, bytes_eq}
use chainlink_common.DataFeeds.Feeds.{
  FeedId, FeedReport, FeedInfo, AggregatorConfig, Environment, Floats,
}
use chainlink_common.DataFeeds.Signers.{signers_of, min_of, extract}
use chainlink_common.DataFeeds.Latest.{latest_of, is_newer, take_report, take_reports, take_events}
use chainlink_common.DataFeeds.Updates.{
  Progress, update_feed, select_feeds, info_of, new_update, new_updates, aggregate,
  initialize_current_state, FeedsOutcome, no_min_required, unencodable, Update,
}
use chainlink_common.DataFeeds.Selected.{select_feeds-keeps}
use chainlink_common.DataFeeds.Counts.{Entries, insert-Entries}
use chainlink_common.DataFeeds.Vouched.{vouchers, allowed_signers-vouchers}

module _ {V : Type 0} (env : Environment V) (allowed : List Bytes) (min : ℤ) where
  -- The report kept for a feed is the feed's, and the codec accepts its signatures.
  abbrev pub Valid : FeedId → FeedReport → Type 0
  Valid id r = (r.feed_id ≡ id) × (env.validate r allowed min ≡ true)

  pub take_report-Valid :
      (r : FeedReport) (latest : Dict FeedId FeedReport)
      → Entries Valid latest
      → Entries Valid (take_report env allowed min r latest)
  unfolding take_report
  take_report-Valid r latest h = elim (Bool-cases (is_newer env allowed min r latest)) [
    | inl newer ↦ rw newer (elim (Bool-cases (env.validate r allowed min)) [
      | inl good ↦ rw good (insert-Entries Valid r.feed_id r latest (refl, good) h)
      | inr bad ↦ rw bad h
    ])
    | inr older ↦ rw older h
  ]

  take_reports-Valid :
      (rs : List FeedReport) (latest : Dict FeedId FeedReport)
      → Entries Valid latest
      → Entries Valid (take_reports env allowed min rs latest)
  unfolding take_reports
  take_reports-Valid [] latest h = h
  take_reports-Valid (r ∷ rs) latest h =
      take_reports-Valid rs (take_report env allowed min r latest) (take_report-Valid r latest h)

  pub take_events-Valid :
      (events : Dict ℕ V) (latest : Dict FeedId FeedReport)
      → Entries Valid latest
      → Entries Valid (take_events env allowed min events latest)
  unfolding take_events
  take_events-Valid [] latest h = h
  take_events-Valid ((id, event) ∷ events) latest h = elim (Option-cases (env.unwrap event)) [
    | inl missing ↦ rw (missing, take_events) (take_events-Valid events latest h)
    | inr (rs, found) ↦
        rw (found, take_events)
          (take_events-Valid events (take_reports env allowed min rs latest)
            (take_reports-Valid rs latest h))
  ]

All-snoc :
    {A : Type 0} (P : A → Type 0) (xs : List A) (x : A) → All P xs → P x → All P (xs ++ (x ∷ []))
All-snoc P [] x h p = (p, tt)
All-snoc P (y ∷ ys) x h p = (h.0, All-snoc P ys x h.1 p)

-- What a feed's state is after some updates: that of the last update for it, or the old one.
unfoldable pub state_after : FeedId → List FeedReport → Option FeedInfo → Option FeedInfo
state_after id [] old = old
state_after id (r ∷ rs) old =
    state_after id rs (if bytes_eq.beq r.feed_id id then some (info_of r) else old)

state_after-snoc :
    (id : FeedId) (rs : List FeedReport) (r : FeedReport) (old : Option FeedInfo)
    → state_after id (rs ++ (r ∷ [])) old
      ≡ (if bytes_eq.beq r.feed_id id then some (info_of r) else state_after id rs old)
unfolding state_after
state_after-snoc id [] r old = refl
state_after-snoc id (q ∷ qs) r old =
    state_after-snoc id qs r (if bytes_eq.beq q.feed_id id then some (info_of q) else old)

module _ (state : Dict FeedId FeedInfo) where
  -- Every feed's state is the one that the updates leave.
  abbrev pub InStep : Dict FeedId FeedInfo → List FeedReport → Type 0
  InStep now updates = (id : FeedId) → lookup id now ≡ state_after id updates (lookup id state)

  update_feed-InStep :
      (id : FeedId) (r : FeedReport) (p : Progress)
      → r.feed_id ≡ id
      → InStep p.state p.updates
      → InStep (update_feed id r p).state (update_feed id r p).updates
  unfolding update_feed
  update_feed-InStep id r p same h j = rw (← same) (
      rw
        (
          state_after-snoc j p.updates r (lookup j state),
          lookup-insert r.feed_id j (info_of r) p.state,
        )
        (rw (h j) refl))

-- A report is valid for the signers and the minimum of a round.
abbrev pub ValidIn :
    {V : Type 0} → Environment V → Dict ℕ (List (Option V)) → ℕ → FeedReport → Type 0
ValidIn env observations f r =
    env.validate r (signers_of env f observations) (min_of env f observations) ≡ true

-- A list of updates comes from reports that are valid in a round.
abbrev pub Reported :
    {F V : Type 0}
    → Floats F
    → Environment V
    → AggregatorConfig F
    → Dict ℕ (List (Option V))
    → ℕ
    → List Update
    → Type 0
Reported floats env config observations f updates =
    (reports : List FeedReport) × (new_updates floats config reports ≡ ok updates)
    × All (ValidIn env observations f) reports

module _ {F V : Type 0} (floats : Floats F) (env : Environment V) (config : AggregatorConfig F)
    (observations : Dict ℕ (List (Option V))) (f : ℕ) (state : Dict FeedId FeedInfo) where
  abbrev selected : Progress
  selected = select_feeds floats config (latest_of env f observations) state

  Selected : Progress → Type 0
  Selected p = All (ValidIn env observations f) p.updates × InStep state p.state p.updates

  -- The reports selected are valid, and the state is what they leave.
  select_feeds-Selected : Selected selected
  unfolding Selected latest_of state_after update_feed
  select_feeds-Selected =
      let allowed = signers_of env f observations in
      let min = min_of env f observations in
      select_feeds-keeps floats config (latest_of env f observations) (Valid env allowed min)
        (take_events-Valid env allowed min (extract env observations).events [] tt) Selected
        (λ id r p good h. (
          All-snoc (ValidIn env observations f) p.updates r h.0 good.1,
          update_feed-InStep state id r p good.0 h.1,
        ))
        (λ ids p h. h) state (tt, λ id. refl)

module _ {F V M : Type 0} (floats : Floats F) (env : Environment V) (config : AggregatorConfig F)
    (encode_state : Dict FeedId FeedInfo → Option M)
    (decode_state : M → Option (Dict FeedId FeedInfo)) (observations : Dict ℕ (List (Option V)))
    (f : ℕ) where
  length-new_updates :
      (rs : List FeedReport) {us : List Update}
      → new_updates floats config rs ≡ ok us
      → length us ≡ length rs
  unfolding new_updates
  length-new_updates [] {us = us} h = ground arith
  length-new_updates (r ∷ rs) {us = us} h =
      let (u, _, h1) = >>=-eq-ok (new_update floats config r) _ h in
      let (later, made, h2) = >>=-eq-ok (new_updates floats config rs) _ h1 in
      ground (arith, length-new_updates rs made)

  -- A round that succeeds writes out what it selects from the state it starts from.
  Selects : Option M → FeedsOutcome M → Type 0
  Selects previous o =
      (state : Dict FeedId FeedInfo) × (initialize_current_state config decode_state previous
        ≡ ok state)
      × (new_updates floats config (selected floats env config observations f state).updates
          ≡ ok o.updates)
      × (encode_state (selected floats env config observations f state).state ≡ some o.metadata)
      × (o.should_report ≡ not (length o.updates == 0))

  aggregate-Selects :
      (previous : Option M) {o : FeedsOutcome M}
      → aggregate floats env config encode_state decode_state previous observations f ≡ ok o
      → Selects previous o
  unfolding aggregate Selects
  aggregate-Selects previous {o = o} h =
      let guard =
        not (length (extract env observations).events == 0)
        && eq_ℤ (min_of env f observations) (pos 0) in
      let (_, _, h1) = >>=-eq-ok (refuse_if guard no_min_required) _ h in
      let (state, start, h2) =
        >>=-eq-ok (initialize_current_state config decode_state previous) _ h1 in
      let p = selected floats env config observations f state in
      let (metadata, written, h3) = >>=-eq-ok (or_fail (encode_state p.state) unencodable) _ h2 in
      let (us, made, h4) = >>=-eq-ok (new_updates floats config p.updates) _ h3 in
      let same : us ≡ o.updates = ground arith in
      (
        state,
        start,
        subst (λ us. new_updates floats config p.updates ≡ ok us) same made,
        ground arith,
        ground (arith, length-new_updates p.updates made),
      )

  -- What a round outputs comes from reports that the codec finds valid for the round's signers,
  -- each of whom more than F nodes list in the metadata of their event, if Aggregate returns an
  -- outcome.
  pub aggregate-Reported :
      (previous : Option M) {o : FeedsOutcome M}
      → aggregate floats env config encode_state decode_state previous observations f ≡ ok o
      → Reported floats env config observations f o.updates
        × All (λ s. f + 1 ≤ vouchers env s observations) (signers_of env f observations)
  unfolding Selects Selected
  aggregate-Reported previous h =
      let (state, _, made, _, _) = aggregate-Selects previous h in
      let kept = select_feeds-Selected floats env config observations f state in
      (
        ((selected floats env config observations f state).updates, made, kept.0),
        allowed_signers-vouchers env f observations,
      )

  -- The metadata of an outcome is a state in step with the reports of its updates.
  abbrev pub Recorded : Dict FeedId FeedInfo → FeedsOutcome M → Type 0
  Recorded state o =
      (reports : List FeedReport) × (now : Dict FeedId FeedInfo) × (new_updates floats config
          reports
        ≡ ok o.updates)
      × (encode_state now ≡ some o.metadata)
      × InStep state now reports
      × (o.should_report ≡ not (length o.updates == 0))

  -- If Aggregate returns an outcome, its metadata is the encoding of a state in which each feed has
  -- what the last of the reports behind the updates says of it, or else what the initial state
  -- says, and it is reported exactly if there are updates.
  pub aggregate-Recorded :
      (previous : Option M) {state : Dict FeedId FeedInfo} {o : FeedsOutcome M}
      → initialize_current_state config decode_state previous ≡ ok state
      → aggregate floats env config encode_state decode_state previous observations f ≡ ok o
      → Recorded state o
  unfolding Selects Selected
  aggregate-Recorded previous {state = state} {o = o} start h =
      let (found, given, made, encoded, reports) = aggregate-Selects previous h in
      let is : found ≡ state = ground arith in
      let p = selected floats env config observations f found in
      let kept = select_feeds-Selected floats env config observations f found in
      (p.updates, p.state, made, encoded, rw (← is) kept.1, reports)
