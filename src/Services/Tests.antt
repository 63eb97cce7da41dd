-- ===== src/Services/Tests.antt =====
-- The theorems on pkg/services/state.go at concrete callers and buffers.
use chainlink_common.Base.{
  ℕ, ◌≤◌, ◌≡◌, ◌≢◌, refl, List, [], ◌∷◌, ◌++◌, Option, none, some, false, arith, get_elem?, total,
  All, ◌↔◌,
}
use chainlink_common.Services.ErrorBuffer.{
  ErrorBuffer, set_cap, append_all, flush, join, recent, flush-append_all,
}
use chainlink_common.Services.StateMachine.Methods.{
  unstarted, started, starting, stopped, if_started, if_not_stopped, Thread, start_begin,
  stop_begin, guard_begin, guard_calling, stop_returned, StateMachine, World, advance, step, run,
  init, cannot_stop,
}
use chainlink_common.Services.StateMachine.Invariant.{
  is_panicked, has_begun, has_started, has_ended, is_writing, IsCaller,
}
use chainlink_common.Services.StateMachine.Safety.{
  run-no_panic, run-once, run-inside, run-stop_overtakes,
}

abbrev old_buffer : ErrorBuffer ℕ
old_buffer = record { buffer = some 7 ∷ none ∷ some 8 ∷ []; cap = 0 }

flush-append_all_example :
    flush (append_all (set_cap old_buffer 2) (none ∷ some 9 ∷ []))
    ≡ (record { buffer = []; cap = 2 }, join (recent 2 (old_buffer.buffer ++ none ∷ some 9 ∷ [])))
flush-append_all_example = flush-append_all 2 old_buffer (none ∷ some 9 ∷ []) (omega arith)

-- Two starts, a stop and two guarded calls at once.
abbrev callers : List (Thread ℕ)
callers =
    start_begin
    ∷ start_begin
    ∷ stop_begin
    ∷ guard_begin if_started
    ∷ guard_begin if_not_stopped
    ∷ []

callers-IsCaller : All IsCaller callers
callers-IsCaller = (tt, (tt, (tt, (tt, (tt, tt)))))

-- The second start loses its swap, the first one runs to its end, the guarded call is let in.
abbrev schedule : List (ℕ × Option ℕ)
schedule =
    (0, none)
    ∷ (1, none)
    ∷ (2, none)
    ∷ (0, none)
    ∷ (0, none)
    ∷ (0, none)
    ∷ (0, none)
    ∷ (3, none)
    ∷ (3, none)
    ∷ []

run-no_panic_example : total is_panicked (run (init callers) schedule).threads ≡ 0
run-no_panic_example = run-no_panic callers callers-IsCaller schedule

run-once_example :
    let w = run (init callers) schedule in
    (total has_begun w.threads ≤ 1)
    × (total has_started w.threads ≤ total has_begun w.threads)
    × (total has_ended w.threads ≤ total has_started w.threads)
    × ((total has_begun w.threads ≡ 0) ↔ (w.machine.state ≡ unstarted))
run-once_example = run-once callers callers-IsCaller schedule

-- A schedule that lets IfNotStopped in before any start.
abbrev guarded : List (ℕ × Option ℕ)
guarded = (4, none) ∷ (4, none) ∷ (0, none) ∷ (2, none) ∷ []

guarded-calling :
    get_elem? (run (init callers) guarded).threads 4 ≡ some (guard_calling if_not_stopped)
unfolding run init step advance
guarded-calling = refl

run-inside_example :
    let w = run (init callers) guarded in
    (total is_writing w.threads ≡ 0)
    × (if_not_stopped ≡ if_started → w.machine.state ≡ started)
    × (if_not_stopped ≡ if_not_stopped → w.machine.state ≢ stopped)
run-inside_example = run-inside callers callers-IsCaller guarded 4 if_not_stopped guarded-calling

abbrev fresh : World ℕ
fresh = record {
  machine = record { state = unstarted; err_buffer = old_buffer; writer = false; readers = 0 };
  threads = stop_begin ∷ start_begin ∷ [];
}

-- The second caller starts and fails while the first is refused, and a stop comes too early.
abbrev failing_turns : List (ℕ × Option ℕ)
failing_turns =
    (1, none)
    ∷ (0, none)
    ∷ (1, none)
    ∷ (2, none)
    ∷ (1, none)
    ∷ (0, none)
    ∷ (1, some 3)
    ∷ (2, none)
    ∷ []

abbrev in_between : World ℕ
in_between = record fresh { machine = record fresh.machine { state = starting } }

run-stop_overtakes_example :
    let w' = run in_between ((0, none) ∷ (0, none) ∷ (0, none) ∷ []) in
    (get_elem? w'.threads 0 ≡ some (stop_returned (some (cannot_stop starting))))
    × (w'.machine ≡ in_between.machine)
run-stop_overtakes_example = run-stop_overtakes in_between 0 refl refl refl refl

abbrev up : StateMachine ℕ
up = record { state = started; err_buffer = old_buffer; writer = false; readers = 0 }
