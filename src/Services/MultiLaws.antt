-- ===== src/Services/MultiLaws.antt =====
-- MultiStart of pkg/services/multi.go starts in order, and on a failure closes in reverse order
-- what it has started.
use mathlib.Core.List.{append-nil, append_assoc}
use chainlink_common.Base.{
  ℕ, zero, suc, ◌≡◌, ◌≤◌, ◌<◌, ◌⊎◌, refl, sym, ap, ◌∙◌, inl, inr, List, [], ◌∷◌, ◌++◌, All, map,
  Option, Option-cases, none, some, length, take, take_all, get_elem?, arith,
}
use chainlink_common.Services.Multi.{
  Call, start_of, close_of, MultiStart, join_error, close_down, close_multi, start_one, start_all,
}

module _ {S : Type 0} where
  -- The calls that close some services, the last of them first.
  abbrev pub closings : List S → List (Call S)
  closings [] = []
  closings (s ∷ ss) = closings ss ++ (close_of s ∷ [])

  closings-snoc : (ss : List S) (s : S) → closings (ss ++ (s ∷ [])) ≡ close_of s ∷ closings ss
  closings-snoc [] s = refl
  closings-snoc (t ∷ ts) s = ap (λ cs. cs ++ (close_of t ∷ [])) (closings-snoc ts s)

  take-suc :
      (i : ℕ) (ss : List S) {s : S}
      → get_elem? ss i ≡ some s
      → take (suc i) ss ≡ take i ss ++ (s ∷ [])
  take-suc i [] h = cc
  take-suc zero (t ∷ ts) h = ground arith
  take-suc (suc i) (t ∷ ts) h = ap (◌∷◌ t) (take-suc i ts h)

  get_elem?-lt : (i : ℕ) (ss : List S) → i < length ss → (s : S) × (get_elem? ss i ≡ some s)
  get_elem?-lt i [] h = elim h [ ]
  get_elem?-lt zero (s ∷ ss) h = (s, refl)
  get_elem?-lt (suc i) (s ∷ ss) h = get_elem?-lt i ss (omega arith)

module _ {S E : Type 0} (starts closes : S → Option E) where
  -- What closing them returns, in the order of the calls.
  abbrev pub closing_errors : List S → List E
  closing_errors [] = []
  closing_errors (s ∷ ss) = join_error starts closes (closing_errors ss) (closes s)

  abbrev closed : MultiStart S → List S → MultiStart S
  closed m ss = record m { calls = m.calls ++ closings ss }

  join_error-append :
      (before after : List E) (e : Option E)
      → join_error starts closes (before ++ after) e ≡ before ++ join_error starts closes after e
  unfolding join_error
  join_error-append before after none = refl
  join_error-append before after (some e) = append_assoc before after (e ∷ [])

  join_error-split :
      (errs : List E) (e : Option E)
      → join_error starts closes errs e ≡ errs ++ join_error starts closes [] e
  unfolding join_error
  join_error-split errs none = sym (append-nil errs)
  join_error-split errs (some e) = refl

  closing_errors-snoc :
      (ss : List S) (s : S)
      → closing_errors (ss ++ (s ∷ []))
        ≡ join_error starts closes [] (closes s) ++ closing_errors ss
  unfolding join_error
  closing_errors-snoc [] s = sym (append-nil (join_error starts closes [] (closes s)))
  closing_errors-snoc (t ∷ ts) s =
      ap (λ es. join_error starts closes es (closes t)) (closing_errors-snoc ts s)
      ∙ join_error-append (join_error starts closes [] (closes s)) (closing_errors ts) (closes t)

  close_down-eq_some :
      (i : ℕ) (errs : List E) (m : MultiStart S)
      → i ≤ length m.started
      → close_down starts closes i errs m
        ≡ some (errs ++ closing_errors (take i m.started), closed m (take i m.started))
  unfolding close_down
  close_down-eq_some zero errs m h = rw (append-nil errs, append-nil m.calls) refl
  close_down-eq_some (suc i) errs m h =
      let (s, here) = get_elem?-lt i m.started (omega arith) in
      let next : MultiStart S = record m { calls = m.calls ++ (close_of s ∷ []) } in
      let rest =
        close_down-eq_some i (join_error starts closes errs (closes s)) next (omega arith) in
      let before = take i m.started in
      let split : some
            (join_error starts closes errs (closes s) ++ closing_errors before, closed next before)
          ≡ some
              (errs ++ closing_errors (take (suc i) m.started), closed m (take (suc i) m.started)) =
        rw
          (
            take-suc i m.started here,
            closing_errors-snoc before s,
            closings-snoc before s,
            join_error-split errs (closes s),
            append_assoc errs (join_error starts closes [] (closes s)) (closing_errors before),
            append_assoc m.calls (close_of s ∷ []) (closings before),
          )
          refl in
      rw (here, close_down) (rest ∙ split)

  -- Close calls every service that was started, the last one first.
  close_multi-eq_some :
      (m : MultiStart S)
      → close_multi starts closes m ≡ some (closing_errors m.started, closed m m.started)
  unfolding close_multi
  close_multi-eq_some m =
      close_down-eq_some (length m.started) [] m (omega arith)
      ∙ rw (take_all (length m.started) m.started (omega arith)) refl

  abbrev pub AllStart : List S → Type 0
  AllStart ss = All (λ s. starts s ≡ none) ss

  -- All services start, or one does not.
  abbrev pub Started : MultiStart S → List S → List E × MultiStart S → Type 0
  Started m ss r =
      AllStart ss
      × (r ≡ ([], record { started = m.started ++ ss; calls = m.calls ++ map start_of ss }))

  abbrev pub Failed : MultiStart S → List S → List E × MultiStart S → Type 0
  Failed m ss r =
      (front : List S) × (s : S) × (back : List S) × (e : E) × (ss ≡ front ++ (s ∷ back))
      × AllStart front
      × (starts s ≡ some e)
      × (r ≡ (
        e ∷ closing_errors (m.started ++ front),
        record {
          started = m.started ++ front;
          calls = m.calls ++ (map start_of front ++ (start_of s ∷ closings (m.started ++ front)));
        },
      ))

  start_one-runs :
      (s : S) (m : MultiStart S)
      → starts s ≡ none
      → start_one starts closes s m
        ≡ some
            ([], record { started = m.started ++ (s ∷ []); calls = m.calls ++ (start_of s ∷ []) })
  unfolding start_one
  start_one-runs s m runs = rw (runs, start_one) refl

  start_one-fails :
      (s : S) (m : MultiStart S) {e : E}
      → starts s ≡ some e
      → start_one starts closes s m
        ≡ some (
          e ∷ closing_errors m.started,
          closed (record m { calls = m.calls ++ (start_of s ∷ []) }) m.started,
        )
  unfolding start_one
  start_one-fails s m fails =
      rw (fails, start_one)
        (rw (close_multi-eq_some (record m { calls = m.calls ++ (start_of s ∷ []) })) refl)

  -- Start either starts all services in order, or it stops at the first that fails and closes all
  -- those started, by this call or an earlier one, in reverse order, and returns its error with
  -- theirs.
  pub start_all-Started :
      (ss : List S) (m : MultiStart S)
      → (r : List E × MultiStart S) × (start_all starts closes ss m ≡ some r)
        × (Started m ss r ⊎ Failed m ss r)
  unfolding start_all
  start_all-Started [] m =
      (([], m), refl, inl (tt, rw (append-nil m.started, append-nil m.calls) refl))
  start_all-Started (s ∷ ss) m = elim (Option-cases (starts s)) [
    | inr (e, fails) ↦
        let called : MultiStart S = record m { calls = m.calls ++ (start_of s ∷ []) } in
        (
          (e ∷ closing_errors m.started, closed called m.started),
          rw (start_one-fails s m fails, start_all) refl,
          inr (
            [],
            s,
            ss,
            e,
            refl,
            tt,
            fails,
            rw (append-nil m.started, append_assoc m.calls (start_of s ∷ []) (closings m.started))
                refl,
          ),
        )
    | inl runs ↦
        let next : MultiStart S = record {
          started = m.started ++ (s ∷ []);
          calls = m.calls ++ (start_of s ∷ []);
        } in
        let (r, done, cases) = start_all-Started ss next in
        (
          r,
          rw (start_one-runs s m runs, start_all) done,
          elim cases [
            | inl (all, is) ↦ inl (
              (runs, all),
              is
                  ∙ rw
                      (
                        append_assoc m.started (s ∷ []) ss,
                        append_assoc m.calls (start_of s ∷ []) (map start_of ss),
                      )
                      refl,
            )
            | inr (front, t, back, e, parts, all, fails, is) ↦ inr (
              s ∷ front,
              t,
              back,
              e,
              ap (◌∷◌ s) parts,
              (runs, all),
              fails,
              is
                  ∙ rw
                      (
                        append_assoc m.started (s ∷ []) front,
                        append_assoc m.calls (start_of s ∷ []) (
                            map start_of front
                            ++ (start_of t ∷ closings (m.started ++ (s ∷ front)))),
                      )
                      refl,
            )
          ],
        )
  ]
