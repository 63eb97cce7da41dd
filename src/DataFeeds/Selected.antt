-- ===== src/DataFeeds/Selected.antt =====
-- The selection of feeds in feeds_aggregator.go: what every update and every candidate keeps holds
-- at its end.
use chainlink_common.Base.{
  inl, inr, List, [], ◌∷◌, ◌++◌, Option-cases, Bool-cases, Dict, lookup, keys, length, ◌==◌,
}
use chainlink_common.Base.Bytes.{bytes_eq}
use chainlink_common.DataFeeds.Feeds.{FeedId, FeedReport, FeedInfo, AggregatorConfig, Floats}
use chainlink_common.DataFeeds.FeedIds.{is_valid_id}
use chainlink_common.DataFeeds.Updates.{
  Progress, update_feed, decide_feed, check_feed, check_feeds, add_candidates, select_feeds,
  needs_update, is_candidate, config_of, sort_ids,
}
use chainlink_common.DataFeeds.Counts.{Entries, lookup-Entries}

module _ {F : Type 0} (floats : Floats F) (config : AggregatorConfig F)
    (latest : Dict FeedId FeedReport) (Q : FeedId → FeedReport → Type 0) (given : Entries Q latest)
    (J : Progress → Type 0)
    (update : (id : FeedId) (r : FeedReport) (p : Progress) → Q id r → J p → J (update_feed id r p))
    (note : (ids : List FeedId) (p : Progress) → J p → J (record p { candidates = ids })) where
  check_feed-keeps : (id : FeedId) (p : Progress) → J p → J (check_feed floats config latest id p)
  unfolding check_feed decide_feed
  check_feed-keeps id p h = elim (Bool-cases (is_valid_id id)) [
    | inr bad ↦ rw (bad, check_feed) h
    | inl good ↦
        rw (good, check_feed)
          (elim (Option-cases (lookup id latest)) [
            | inl none_new ↦ rw none_new h
            | inr (r, new) ↦ rw new (elim (Option-cases (lookup id p.state)) [
              | inl unknown ↦ rw unknown h
              | inr (old, known) ↦ rw known (
                  let c = config_of floats config id in
                  elim (Bool-cases (needs_update floats c old r)) [
                    | inl needed ↦
                        rw needed (update id r p (lookup-Entries Q id latest given new) h)
                    | inr quiet ↦ rw quiet (elim (Bool-cases (is_candidate floats config c old r)) [
                      | inl stale ↦ rw stale (note (p.candidates ++ (id ∷ [])) p h)
                      | inr fresh ↦ rw fresh h
                    ])
                  ])
            ])
          ])
  ]

  check_feeds-keeps :
      (ids : List FeedId) (p : Progress) → J p → J (check_feeds floats config latest ids p)
  unfolding check_feeds
  check_feeds-keeps [] p h = h
  check_feeds-keeps (id ∷ ids) p h =
      check_feeds-keeps ids (check_feed floats config latest id p) (check_feed-keeps id p h)

  add_candidates-keeps :
      (ids : List FeedId) (p : Progress) → J p → J (add_candidates floats config latest ids p)
  unfolding add_candidates
  add_candidates-keeps [] p h = h
  add_candidates-keeps (id ∷ ids) p h = elim (Option-cases (lookup id latest)) [
    | inl missing ↦ rw (missing, add_candidates) (add_candidates-keeps ids p h)
    | inr (r, found) ↦
        rw (found, add_candidates)
          (add_candidates-keeps ids (update_feed id r p)
            (update id r p (lookup-Entries Q id latest given found) h))
  ]

  pub select_feeds-keeps :
      (state : Dict FeedId FeedInfo)
      → J (record { state = state; updates = []; candidates = [] })
      → J (select_feeds floats config latest state)
  unfolding select_feeds
  select_feeds-keeps state h =
      let start : Progress = record { state = state; updates = []; candidates = [] } in
      let p = check_feeds floats config latest (sort_ids (keys state)) start in
      let checked = check_feeds-keeps (sort_ids (keys state)) start h in
      elim (Bool-cases (length p.updates == 0)) [
        | inl nothing ↦ rw nothing checked
        | inr some_new ↦ rw some_new (add_candidates-keeps p.candidates p checked)
      ]
