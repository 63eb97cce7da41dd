-- ===== src/Services/StateMachine/Methods.antt =====
-- The methods of StateMachine, operation by operation, and their interleavings.
use chainlink_common.Base.{
  ℕ, ◌+◌, ◌-◌, ◌⊎◌, inl, inr, List, [], ◌∷◌, Option, none, some, Bool, true, false, not, ◌&&◌,
  get_elem?, set, ◌==◌, if◌then◌else◌,
}
use chainlink_common.Services.ErrorBuffer.{ErrorBuffer, set_cap, flush}

-- The `state` constants.
pub data ServiceState : Type 0 where
  unstarted started starting start_failed stopping stopped stop_failed : ServiceState

pub State-discrete : Discrete ServiceState
State-discrete = hlevel

-- The errors of the methods: one of the service's own, or what the state machine reports.
pub data Error {ℓ} (E : Type ℓ) : Type ℓ where
  service : E → Error E
  already_started : ServiceState → Error E
  already_stopped : Error E
  cannot_stop_unstarted : Error E
  cannot_stop : ServiceState → Error E
  not_started : ServiceState → Error E

-- Which callers a guarded method admits: IfStarted or IfNotStopped.
pub data Guard : Type 0 where
  if_started if_not_stopped : Guard

-- What a thread does next, or has returned.
pub data Thread {ℓ} (E : Type ℓ) : Type ℓ where
  start_begin start_refused start_locking start_locked start_calling : Thread E
  stop_begin stop_locked stop_refused stop_calling : Thread E
  guard_begin guard_locked guard_calling : Guard → Thread E
  start_returned stop_returned : Option (Error E) → Thread E
  answered : Bool → Thread E
  panicked : Thread E

-- The fields of StateMachine; the RWMutex is its writer flag and its count of readers.
pub record StateMachine {ℓ} (E : Type ℓ) : Type ℓ where
  pub state : ServiceState
  pub err_buffer : ErrorBuffer E
  pub writer : Bool
  pub readers : ℕ

pub record World {ℓ} (E : Type ℓ) : Type ℓ where
  pub machine : StateMachine E
  pub threads : List (Thread E)

abbrev pub default_error_buffer_cap : ℕ
default_error_buffer_cap = 50

-- The test of IfStarted and of IfNotStopped.
abbrev pub admits : Guard → ServiceState → Bool
admits if_started started = true
admits if_started _ = false
admits if_not_stopped stopped = false
admits if_not_stopped _ = true

module _ {ℓ} {E : Type ℓ} where
  -- once.Lock(), or false if the caller has to wait.
  abbrev try_lock : StateMachine E → Bool
  try_lock m = not m.writer && m.readers == 0

  -- The outcome of `fn`, as the error that the method returns.
  abbrev pub outcome : Option E → Option (Error E)
  outcome none = none
  outcome (some e) = some (service e)

  -- The state that StartOnce swaps to after `fn`.
  abbrev pub after_start : Option E → ServiceState
  after_start none = started
  after_start (some _) = start_failed

  -- The state that StopOnce swaps to after `fn`.
  abbrev pub after_stop : Option E → ServiceState
  after_stop none = stopped
  after_stop (some _) = stop_failed

  -- StartOnce: the first compare-and-swap, outside of the lock.
  swap_to_starting : ServiceState → StateMachine E → StateMachine E × Thread E
  swap_to_starting unstarted m = (record m { state = starting }, start_locking)
  swap_to_starting _ m = (m, start_refused)

  -- StartOnce: the second one, behind `fn`, and the deferred unlock.
  swap_from_starting : ServiceState → Option E → StateMachine E → StateMachine E × Thread E
  swap_from_starting starting r m =
      (record m { state = after_start r; writer = false }, start_returned (outcome r))
  swap_from_starting _ r m = (record m { writer = false }, panicked)

  -- StopOnce: the first compare-and-swap, under the lock.
  swap_to_stopping : ServiceState → StateMachine E → StateMachine E × Thread E
  swap_to_stopping started m = (record m { state = stopping }, stop_calling)
  swap_to_stopping _ m = (m, stop_refused)

  -- StopOnce: the error after that swap has failed, by the state that is loaded then.
  abbrev stop_error : ServiceState → Error E
  stop_error stopped = already_stopped
  stop_error unstarted = cannot_stop_unstarted
  stop_error s = cannot_stop s

  -- StopOnce: the second compare-and-swap, behind `fn`, and the deferred unlock.
  swap_from_stopping : ServiceState → Option E → StateMachine E → StateMachine E × Thread E
  swap_from_stopping stopping r m =
      (record m { state = after_stop r; writer = false }, stop_returned (outcome r))
  swap_from_stopping _ r m = (record m { writer = false }, panicked)

  -- The next operation of a thread. `r` is what `fn` returns, if that is the operation.
  unfoldable pub advance : Thread E → Option E → StateMachine E → StateMachine E × Thread E
  unfolding swap_to_starting swap_from_starting swap_to_stopping swap_from_stopping
  advance start_begin r m = swap_to_starting m.state m
  advance start_refused r m = (m, start_returned (some (already_started m.state)))
  advance start_locking r m =
      if try_lock m then (record m { writer = true }, start_locked) else (m, start_locking)
  advance start_locked r m =
      (record m { err_buffer = set_cap m.err_buffer default_error_buffer_cap }, start_calling)
  advance start_calling r m = swap_from_starting m.state r m
  advance stop_begin r m =
      if try_lock m then (record m { writer = true }, stop_locked) else (m, stop_begin)
  advance stop_locked r m = swap_to_stopping m.state m
  advance stop_refused r m =
      (record m { writer = false }, stop_returned (some (stop_error m.state)))
  advance stop_calling r m = swap_from_stopping m.state r m
  advance (guard_begin g) r m =
      if m.writer
      then (m, guard_begin g)
      else (record m { readers = m.readers + 1 }, guard_locked g)
  advance (guard_locked g) r m =
      if admits g m.state
      then (m, guard_calling g)
      else (record m { readers = m.readers - 1 }, answered false)
  advance (guard_calling g) r m = (record m { readers = m.readers - 1 }, answered true)
  advance (start_returned e) r m = (m, start_returned e)
  advance (stop_returned e) r m = (m, stop_returned e)
  advance (answered b) r m = (m, answered b)
  advance panicked r m = (m, panicked)

  -- One turn of the scheduler: which thread, and what its `fn` returns.
  unfoldable pub step : World E → ℕ × Option E → World E
  step w (i, r) = elim (get_elem? w.threads i) [
    | none ↦ w
    | some t ↦
        let (m, t') = advance t r w.machine in record { machine = m; threads = set w.threads i t' }
  ]

  unfoldable pub run : World E → List (ℕ × Option E) → World E
  run w [] = w
  run w (turn ∷ turns) = run (step w turn) turns

  -- A zero StateMachine, and the callers that are about to use it.
  unfoldable pub init : List (Thread E) → World E
  init ts = record {
    machine = record {
      state = unstarted;
      err_buffer = record { buffer = []; cap = 0 };
      writer = false;
      readers = 0;
    };
    threads = ts;
  }

  -- Ready: a load of the state alone.
  unfoldable pub ready : StateMachine E → Option (Error E)
  ready m = elim m.state [ started ↦ none | s ↦ some (not_started s) ]

  healthy_in : ServiceState → StateMachine E → StateMachine E × (List E ⊎ Error E)
  healthy_in started m = let (eb, es) = flush m.err_buffer in (record m { err_buffer = eb }, inl es)
  healthy_in s m = (m, inr (not_started s))

  -- Healthy: the flushed errors if started, and the state otherwise.
  unfoldable pub healthy : StateMachine E → StateMachine E × (List E ⊎ Error E)
  unfolding healthy_in
  healthy m = healthy_in m.state m
