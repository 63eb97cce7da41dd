-- ===== src/DataFeeds/Newest.antt =====
-- The reports that the aggregator of feeds_aggregator.go goes by are the newest valid ones of the
-- round.
use chainlink_common.Base.{
  ℕ, ◌≡◌, refl, inl, inr, ◌⊎◌, true, false, List, [], ◌∷◌, Option, Option-cases, some, Bool-cases,
  Dict, lookup, lookup-insert, arith, beq_refl,
}
use chainlink_common.Base.Int.{ℤ, ltb_ℤ, ◌≤ℤ◌}
use chainlink_common.Base.Bytes.{Bytes, bytes_eq}
use chainlink_common.DataFeeds.Feeds.{FeedId, FeedReport, Environment}
use chainlink_common.DataFeeds.Signers.{signers_of, min_of, extract}
use chainlink_common.DataFeeds.Latest.{latest_of, is_newer, take_report, take_reports, take_events}

-- The report kept for a feed is at least as new as one for it.
abbrev pub Covers : Dict FeedId FeedReport → FeedReport → Type 0
Covers latest r =
    (kept : FeedReport) × (lookup r.feed_id latest ≡ some kept)
    × (r.observation_timestamp ≤ℤ kept.observation_timestamp)

abbrev Among : FeedReport → List FeedReport → Type 0
Among r [] = ⊥
Among r (q ∷ qs) = (q ≡ r) ⊎ Among r qs

-- A report is one of those that the events of the nodes hold.
abbrev pub Offered : {V : Type 0} → Environment V → Dict ℕ V → FeedReport → Type 0
Offered env [] r = ⊥
Offered env ((id, event) ∷ events) r =
    ((qs : List FeedReport) × (env.unwrap event ≡ some qs) × Among r qs) ⊎ Offered env events r

ltb_ℤ-≤ℤ : (a b : ℤ) → ltb_ℤ a b ≡ false → b ≤ℤ a
ltb_ℤ-≤ℤ a b h = ground arith

ltb_ℤ-trans : (a b c : ℤ) → a ≤ℤ b → ltb_ℤ b c ≡ true → a ≤ℤ c
ltb_ℤ-trans a b c h k = ground arith

module _ {V : Type 0} (env : Environment V) (allowed : List Bytes) (min : ℤ) where
  take_report-keeps :
      (q r : FeedReport) (latest : Dict FeedId FeedReport)
      → Covers latest r
      → Covers (take_report env allowed min q latest) r
  unfolding take_report is_newer
  take_report-keeps q r latest (kept, known, newer) =
      elim (Bool-cases (is_newer env allowed min q latest)) [
        | inr older ↦ rw older (kept, known, newer)
        | inl later ↦ rw later (elim (Bool-cases (env.validate q allowed min)) [
          | inr bad ↦ rw bad (kept, known, newer)
          | inl good ↦
              rw (good, lookup-insert q.feed_id r.feed_id q latest)
                (elim (Bool-cases (bytes_eq.beq q.feed_id r.feed_id)) [
                  | inl own ↦
                      let at : q.feed_id ≡ r.feed_id =
                        (bytes_eq.beq_iff q.feed_id r.feed_id).0 own in
                      let there : lookup q.feed_id latest ≡ some kept = rw at known in
                      let above : ltb_ℤ kept.observation_timestamp q.observation_timestamp ≡ true =
                        ground (arith, there) in
                      rw own (
                        q,
                        refl,
                        ltb_ℤ-trans r.observation_timestamp kept.observation_timestamp
                            q.observation_timestamp newer above,
                      )
                  | inr other ↦ rw other (kept, known, newer)
                ])
        ])
      ]

  take_report-Covers :
      (r : FeedReport) (latest : Dict FeedId FeedReport)
      → env.validate r allowed min ≡ true
      → Covers (take_report env allowed min r latest) r
  unfolding take_report is_newer
  take_report-Covers r latest good = elim (Bool-cases (is_newer env allowed min r latest)) [
    | inl newer ↦
        rw (newer, good, lookup-insert r.feed_id r.feed_id r latest, beq_refl r.feed_id)
          (r, refl, omega arith)
    | inr older ↦ elim (Option-cases (lookup r.feed_id latest)) [
      | inl missing ↦ ground arith
      | inr (kept, known) ↦
          let below : ltb_ℤ kept.observation_timestamp r.observation_timestamp ≡ false =
            ground arith in
          rw older (kept, known, ltb_ℤ-≤ℤ kept.observation_timestamp r.observation_timestamp below)
    ]
  ]

  take_reports-keeps :
      (qs : List FeedReport) (r : FeedReport) (latest : Dict FeedId FeedReport)
      → Covers latest r
      → Covers (take_reports env allowed min qs latest) r
  unfolding take_reports
  take_reports-keeps [] r latest h = h
  take_reports-keeps (q ∷ qs) r latest h =
      take_reports-keeps qs r (take_report env allowed min q latest)
        (take_report-keeps q r latest h)

  take_reports-Covers :
      (qs : List FeedReport) (r : FeedReport) (latest : Dict FeedId FeedReport)
      → Among r qs
      → env.validate r allowed min ≡ true
      → Covers (take_reports env allowed min qs latest) r
  unfolding take_reports
  take_reports-Covers [] r latest among good = elim among [ ]
  take_reports-Covers (q ∷ qs) r latest (inl this) good =
      take_reports-keeps qs r (take_report env allowed min q latest)
        (rw this (take_report-Covers r latest good))
  take_reports-Covers (q ∷ qs) r latest (inr later) good =
      take_reports-Covers qs r (take_report env allowed min q latest) later good

  take_events-keeps :
      (events : Dict ℕ V) (r : FeedReport) (latest : Dict FeedId FeedReport)
      → Covers latest r
      → Covers (take_events env allowed min events latest) r
  unfolding take_events
  take_events-keeps [] r latest h = h
  take_events-keeps ((id, event) ∷ events) r latest h = elim (Option-cases (env.unwrap event)) [
    | inl none_here ↦ rw (none_here, take_events) (take_events-keeps events r latest h)
    | inr (qs, found) ↦
        rw (found, take_events)
          (take_events-keeps events r (take_reports env allowed min qs latest)
            (take_reports-keeps qs r latest h))
  ]

  take_events-Covers :
      (events : Dict ℕ V) (r : FeedReport) (latest : Dict FeedId FeedReport)
      → Offered env events r
      → env.validate r allowed min ≡ true
      → Covers (take_events env allowed min events latest) r
  unfolding take_events
  take_events-Covers [] r latest offered good = elim offered [ ]
  take_events-Covers ((id, event) ∷ events) r latest (inl (qs, found, among)) good =
      rw (found, take_events)
        (take_events-keeps events r (take_reports env allowed min qs latest)
          (take_reports-Covers qs r latest among good))
  take_events-Covers ((id, event) ∷ events) r latest (inr later) good =
      elim (Option-cases (env.unwrap event)) [
        | inl none_here ↦
            rw (none_here, take_events) (take_events-Covers events r latest later good)
        | inr (qs, found) ↦
            rw (found, take_events)
              (take_events-Covers events r (take_reports env allowed min qs latest) later good)
      ]

module _ {V : Type 0} (env : Environment V) where
  -- For every valid report in the events of a round, the report kept for its feed is at least as
  -- new.
  pub latest_of-Covers :
      (f : ℕ) (observations : Dict ℕ (List (Option V))) (r : FeedReport)
      → Offered env (extract env observations).events r
      → env.validate r (signers_of env f observations) (min_of env f observations) ≡ true
      → Covers (latest_of env f observations) r
  unfolding latest_of
  latest_of-Covers f observations r offered good =
      take_events-Covers env (signers_of env f observations) (min_of env f observations)
        (extract env observations).events r [] offered good
