-- ===== src/Services/StateMachine/Safety.antt =====
-- What callers of StateMachine may rely on, under every schedule.
use chainlink_common.Base.{
  ℕ, ◌≤◌, ◌≡◌, refl, ◌≢◌, ◌↔◌, ◌⊎◌, List, [], ◌∷◌, Option, none, some, false, arith, get_elem?, set,
  total, All, inl, inr, get_elem?-set_self,
}
use chainlink_common.Services.ErrorBuffer.{join, flush}
use chainlink_common.Services.StateMachine.Methods.{
  unstarted, started, starting, stopped, Guard, if_started, if_not_stopped, Thread, stop_begin,
  guard_calling, stop_returned, StateMachine, World, advance, step, run, init, cannot_stop,
  not_started, ready, healthy,
}
use chainlink_common.Services.StateMachine.Invariant.{
  is_writing, is_reading, is_inside, has_begun, has_started, has_ended, is_panicked, IsCaller,
  reachable-Inv, le-total,
}

module _ {ℓ} {E : Type ℓ} (ts : List (Thread E)) (callers : All IsCaller ts) where
  -- Whatever StartOnce, StopOnce, IfStarted and IfNotStopped callers run at once, and however
  -- their operations interleave, no call reaches the panic behind a failed second swap.
  pub run-no_panic :
      (turns : List (ℕ × Option E)) → total is_panicked (run (init ts) turns).threads ≡ 0
  run-no_panic turns = (reachable-Inv ts turns callers).none_panicked

  -- At every moment, at most one StartOnce has won the first swap, so at most one start function
  -- was ever called; at most one StopOnce has won its swap, and only after a StartOnce
  -- returned nil; the state is Unstarted exactly while no StartOnce has won.
  pub run-once :
      (turns : List (ℕ × Option E))
      → let w = run (init ts) turns in
        (total has_begun w.threads ≤ 1)
        × (total has_started w.threads ≤ total has_begun w.threads)
        × (total has_ended w.threads ≤ total has_started w.threads)
        × ((total has_begun w.threads ≡ 0) ↔ (w.machine.state ≡ unstarted))
  run-once turns = ground (arith, reachable-Inv ts turns callers)

  -- While a callback of IfStarted runs, the state is Started, and no start or stop function runs.
  -- While one of IfNotStopped runs, the state is not Stopped, and no such function runs either.
  pub run-inside :
      (turns : List (ℕ × Option E)) (i : ℕ) (g : Guard)
      → let w = run (init ts) turns in
        get_elem? w.threads i ≡ some (guard_calling g)
        → (total is_writing w.threads ≡ 0)
          × (g ≡ if_started → w.machine.state ≡ started)
          × (g ≡ if_not_stopped → w.machine.state ≢ stopped)
  run-inside turns i if_started e =
      let w = run (init ts) turns in
      ground (
        arith,
        reachable-Inv ts turns callers,
        le-total is_reading w.threads i e,
        le-total (is_inside if_started) w.threads i e,
      )
  run-inside turns i if_not_stopped e =
      let w = run (init ts) turns in
      ground (
        arith,
        reachable-Inv ts turns callers,
        le-total is_reading w.threads i e,
        le-total (is_inside if_not_stopped) w.threads i e,
      )

module _ {ℓ} {E : Type ℓ} where
  step_machine :
      (w : World E) (i : ℕ) (r : Option E) {t : Thread E}
      → get_elem? w.threads i ≡ some t
      → (step w (i, r)).machine ≡ (advance t r w.machine).0
  unfolding step
  step_machine w i r e = rw (e, step)

  step_threads :
      (w : World E) (i : ℕ) (r : Option E) {t : Thread E}
      → get_elem? w.threads i ≡ some t
      → (step w (i, r)).threads ≡ set w.threads i (advance t r w.machine).1
  unfolding step
  step_threads w i r e = rw (e, step)

  -- The schedule that gives one thread every turn.
  abbrev turns_of : ℕ → List (Option E) → List (ℕ × Option E)
  turns_of i [] = []
  turns_of i (r ∷ rs) = (i, r) ∷ turns_of i rs

  -- The operations of one thread, with no other thread in between.
  alone : Thread E → StateMachine E → List (Option E) → StateMachine E × Thread E
  alone t m [] = (m, t)
  alone t m (r ∷ rs) = let (m', t') = advance t r m in alone t' m' rs

  run-alone :
      (w : World E) (i : ℕ) (rs : List (Option E)) (t : Thread E)
      → get_elem? w.threads i ≡ some t
      → let w' = run w (turns_of i rs) in
        (get_elem? w'.threads i ≡ some (alone t w.machine rs).1)
        × (w'.machine ≡ (alone t w.machine rs).0)
  unfolding run alone step
  run-alone w i [] t e = (e, refl)
  run-alone w i (r ∷ rs) t e = rw (step_machine w i r e) at (run-alone (step w (i, r)) i rs _ moved)
    where
      moved : get_elem? (step w (i, r)).threads i ≡ some (advance t r w.machine).1
      moved = rw (step_threads w i r e) (get_elem?-set_self w.threads i _ e)

  -- StopOnce does not wait for a start that has won its first swap and has not locked yet: run at
  -- that moment, it returns the error that the machine cannot be stopped in state Starting.
  pub run-stop_overtakes :
      (w : World E) (i : ℕ)
      → get_elem? w.threads i ≡ some stop_begin
      → w.machine.state ≡ starting
      → w.machine.writer ≡ false
      → w.machine.readers ≡ 0
      → let w' = run w ((i, none) ∷ (i, none) ∷ (i, none) ∷ []) in
        (get_elem? w'.threads i ≡ some (stop_returned (some (cannot_stop starting))))
        × (w'.machine ≡ w.machine)
  unfolding alone advance
  run-stop_overtakes w i e s l n =
      ground (arith, run-alone w i (none ∷ none ∷ none ∷ []) stop_begin e)

  -- Ready returns nil exactly in state Started, and Healthy then returns the joined errors of the
  -- buffer and empties it; in any other state both return the error that names the state.
  pub healthy-ready :
      (m : StateMachine E)
      → ((ready m ≡ none)
          × (m.state ≡ started)
          × (healthy m ≡ (
            record m { err_buffer = record m.err_buffer { buffer = [] } },
            inl (join m.err_buffer.buffer),
          )))
        ⊎ ((ready m ≡ some (not_started m.state))
            × (m.state ≢ started)
            × (healthy m ≡ (m, inr (not_started m.state))))
  unfolding ready healthy flush
  healthy-ready m = ground arith
