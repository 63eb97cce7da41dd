-- ===== src/Services/StateMachine/Invariant.antt =====
-- What holds of the state machine between any two operations of its callers.
use chainlink_common.Base.{
  ℕ, zero, suc, ◌+◌, ◌≤◌, ◌<◌, ◌≡◌, ◌≢◌, List, [], ◌∷◌, Option, none, some, Bool, true, false,
  arith, get_elem?, set, total, total-set, All, Option-cases, inl, inr,
}
use chainlink_common.Services.StateMachine.Methods.{
  ServiceState, unstarted, started, starting, start_failed, stopping, stopped, stop_failed, service,
  Guard, if_started, if_not_stopped, Thread, start_begin, start_refused, start_locking,
  start_locked, start_calling, stop_begin, stop_locked, stop_refused, stop_calling, guard_begin,
  guard_locked, guard_calling, start_returned, stop_returned, answered, panicked, StateMachine,
  World, advance, step, run, init,
}

abbrev bit : Bool → ℕ
bit true = 1
bit false = 0

-- How many threads may be between the two swaps of StartOnce, by the state.
abbrev pub in_start : ServiceState → ℕ
in_start starting = 1
in_start _ = 0

abbrev pub in_stop : ServiceState → ℕ
in_stop stopping = 1
in_stop _ = 0

-- How many calls of StartOnce have won the first swap.
abbrev pub begun : ServiceState → ℕ
begun unstarted = 0
begun _ = 1

-- How many calls of StartOnce have returned nil.
abbrev pub served : ServiceState → ℕ
served unstarted = 0
served starting = 0
served start_failed = 0
served _ = 1

-- How many calls of StopOnce have won the first swap.
abbrev pub ended : ServiceState → ℕ
ended stopping = 1
ended stopped = 1
ended stop_failed = 1
ended _ = 0

module _ {ℓ} {E : Type ℓ} where
  -- Between the swaps of StartOnce.
  abbrev pub is_starting : Thread E → ℕ
  is_starting start_locking = 1
  is_starting start_locked = 1
  is_starting start_calling = 1
  is_starting _ = 0

  -- Inside the `fn` of StopOnce.
  abbrev pub is_stopping : Thread E → ℕ
  is_stopping stop_calling = 1
  is_stopping _ = 0

  -- Holding the lock for writing.
  abbrev pub is_writing : Thread E → ℕ
  is_writing start_locked = 1
  is_writing start_calling = 1
  is_writing stop_locked = 1
  is_writing stop_refused = 1
  is_writing stop_calling = 1
  is_writing _ = 0

  -- Holding it for reading.
  abbrev pub is_reading : Thread E → ℕ
  is_reading (guard_locked g) = 1
  is_reading (guard_calling g) = 1
  is_reading _ = 0

  -- Inside the callback of IfStarted, or of IfNotStopped.
  abbrev pub is_inside : Guard → Thread E → ℕ
  is_inside if_started (guard_calling if_started) = 1
  is_inside if_not_stopped (guard_calling if_not_stopped) = 1
  is_inside _ _ = 0

  -- Holding the lock for the test of IfStarted or IfNotStopped.
  abbrev pub is_testing : Thread E → ℕ
  is_testing (guard_locked g) = 1
  is_testing _ = 0

  -- A StartOnce that won: its `fn` is still to come, is running, or has returned.
  abbrev pub has_begun : Thread E → ℕ
  has_begun start_locking = 1
  has_begun start_locked = 1
  has_begun start_calling = 1
  has_begun (start_returned none) = 1
  has_begun (start_returned (some (service e))) = 1
  has_begun _ = 0

  abbrev pub has_started : Thread E → ℕ
  has_started (start_returned none) = 1
  has_started _ = 0

  -- A StopOnce that won: its `fn` is running or has returned.
  abbrev pub has_ended : Thread E → ℕ
  has_ended stop_calling = 1
  has_ended (stop_returned none) = 1
  has_ended (stop_returned (some (service e))) = 1
  has_ended _ = 0

  abbrev pub is_panicked : Thread E → ℕ
  is_panicked panicked = 1
  is_panicked _ = 0

  -- The invariant of a machine, with the numbers of threads as variables.
  pub record Counts (m : StateMachine E) (count : (Thread E → ℕ) → ℕ) : Type 0 where
    pub one_starting : count is_starting ≡ in_start m.state
    pub one_stopping : count is_stopping ≡ in_stop m.state
    pub one_writing : count is_writing ≡ bit m.writer
    pub all_reading : count is_reading ≡ m.readers
    pub none_panicked : count is_panicked ≡ 0
    pub one_begun : count has_begun ≡ begun m.state
    pub one_served : count has_started ≡ served m.state
    pub one_ended : count has_ended ≡ ended m.state
    pub exclusive : m.writer ≡ true → m.readers ≡ 0
    pub inside_reads :
        count is_testing + count (is_inside if_started) + count (is_inside if_not_stopped)
        ≡ count is_reading
    pub inside_started : 0 < count (is_inside if_started) → m.state ≡ started
    pub inside_not_stopped : 0 < count (is_inside if_not_stopped) → m.state ≢ stopped

  abbrev pub Inv : World E → Type 0
  Inv w = Counts w.machine (λ f. total f w.threads)

  -- How the numbers change when one thread moves from `t` to `t'`.
  record Moves (count count' : (Thread E → ℕ) → ℕ) (t t' : Thread E) (f : Thread E → ℕ)
      : Type 0 where
    moved : count' f + f t ≡ count f + f t'
    present : f t ≤ count f

  record AllMoves (count count' : (Thread E → ℕ) → ℕ) (t t' : Thread E) : Type 0 where
    starting_moves : Moves count count' t t' is_starting
    stopping_moves : Moves count count' t t' is_stopping
    writing_moves : Moves count count' t t' is_writing
    reading_moves : Moves count count' t t' is_reading
    panicked_moves : Moves count count' t t' is_panicked
    begun_moves : Moves count count' t t' has_begun
    served_moves : Moves count count' t t' has_started
    ended_moves : Moves count count' t t' has_ended
    testing_moves : Moves count count' t t' is_testing
    inside_moves : Moves count count' t t' (is_inside if_started)
    inside_not_moves : Moves count count' t t' (is_inside if_not_stopped)

  advance-Counts :
      (t : Thread E) (r : Option E) (m : StateMachine E) (count count' : (Thread E → ℕ) → ℕ)
      → AllMoves count count' t (advance t r m).1
      → Counts m count
      → Counts (advance t r m).0 count'
  unfolding advance
  advance-Counts start_begin r m count count' v c = ground arith
  advance-Counts start_refused r m count count' v c = ground arith
  advance-Counts start_locking r m count count' v c = ground arith
  advance-Counts start_locked r m count count' v c = ground arith
  advance-Counts start_calling none m count count' v c = ground arith
  advance-Counts start_calling (some e) m count count' v c = ground arith
  advance-Counts stop_begin r m count count' v c = ground arith
  advance-Counts stop_locked r m count count' v c = ground arith
  advance-Counts stop_refused r m count count' v c = ground arith
  advance-Counts stop_calling none m count count' v c = ground arith
  advance-Counts stop_calling (some e) m count count' v c = ground arith
  advance-Counts (guard_begin if_started) r m count count' v c = ground arith
  advance-Counts (guard_begin if_not_stopped) r m count count' v c = ground arith
  advance-Counts (guard_locked if_started) r m count count' v c = ground arith
  advance-Counts (guard_locked if_not_stopped) r m count count' v c = ground arith
  advance-Counts (guard_calling if_started) r m count count' v c = ground arith
  advance-Counts (guard_calling if_not_stopped) r m count count' v c = ground arith
  advance-Counts (start_returned e) r m count count' v c = ground arith
  advance-Counts (stop_returned e) r m count count' v c = ground arith
  advance-Counts (answered b) r m count count' v c = ground arith
  advance-Counts panicked r m count count' v c = ground arith

  pub le-total :
      (f : Thread E → ℕ) (ts : List (Thread E)) (i : ℕ) {t : Thread E}
      → get_elem? ts i ≡ some t
      → f t ≤ total f ts
  le-total f [] i e = cc
  le-total f (u ∷ ts) zero e = ground arith
  le-total f (u ∷ ts) (suc i) e = omega (arith, le-total f ts i e)

  set-Moves :
      (ts : List (Thread E)) (i : ℕ) (t t' : Thread E) (f : Thread E → ℕ)
      → get_elem? ts i ≡ some t
      → Moves (λ g. total g ts) (λ g. total g (set ts i t')) t t' f
  set-Moves ts i t t' f e = record { moved = total-set f ts i t' e; present = le-total f ts i e }

  set-AllMoves :
      (ts : List (Thread E)) (i : ℕ) (t t' : Thread E)
      → get_elem? ts i ≡ some t
      → AllMoves (λ g. total g ts) (λ g. total g (set ts i t')) t t'
  set-AllMoves ts i t t' e = record {
    starting_moves = set-Moves ts i t t' is_starting e;
    stopping_moves = set-Moves ts i t t' is_stopping e;
    writing_moves = set-Moves ts i t t' is_writing e;
    reading_moves = set-Moves ts i t t' is_reading e;
    panicked_moves = set-Moves ts i t t' is_panicked e;
    begun_moves = set-Moves ts i t t' has_begun e;
    served_moves = set-Moves ts i t t' has_started e;
    ended_moves = set-Moves ts i t t' has_ended e;
    testing_moves = set-Moves ts i t t' is_testing e;
    inside_moves = set-Moves ts i t t' (is_inside if_started) e;
    inside_not_moves = set-Moves ts i t t' (is_inside if_not_stopped) e;
  }

  pub step-Inv : (w : World E) (turn : ℕ × Option E) → Inv w → Inv (step w turn)
  unfolding step
  step-Inv w (i, r) v = elim (Option-cases (get_elem? w.threads i)) [
    | inl e ↦ rw (e, step) v
    | inr (t, e) ↦
        rw (e, step) (advance-Counts t r w.machine _ _ (set-AllMoves w.threads i t _ e) v)
  ]

  pub run-Inv : (w : World E) (turns : List (ℕ × Option E)) → Inv w → Inv (run w turns)
  unfolding run
  run-Inv w [] v = v
  run-Inv w (turn ∷ turns) v = run-Inv (step w turn) turns (step-Inv w turn v)

  -- A caller that has not made its first operation yet.
  abbrev pub IsCaller : Thread E → Type 0
  IsCaller start_begin = Unit
  IsCaller stop_begin = Unit
  IsCaller (guard_begin g) = Unit
  IsCaller _ = ⊥

  init-Inv : (ts : List (Thread E)) → All IsCaller ts → Inv (init ts)
  unfolding init
  init-Inv [] h = ground arith
  init-Inv (start_begin ∷ ts) h = ground (arith, init-Inv ts h.1)
  init-Inv (stop_begin ∷ ts) h = ground (arith, init-Inv ts h.1)
  init-Inv (guard_begin if_started ∷ ts) h = ground (arith, init-Inv ts h.1)
  init-Inv (guard_begin if_not_stopped ∷ ts) h = ground (arith, init-Inv ts h.1)
  init-Inv (_ ∷ ts) h = absurd h.0

  pub reachable-Inv :
      (ts : List (Thread E)) (turns : List (ℕ × Option E))
      → All IsCaller ts
      → Inv (run (init ts) turns)
  reachable-Inv ts turns h = run-Inv (init ts) turns (init-Inv ts h)
