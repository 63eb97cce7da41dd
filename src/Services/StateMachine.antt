-- ===== src/Services/StateMachine.antt =====
-- StateMachine of pkg/services/state.go. StartOnce, StopOnce, IfStarted and IfNotStopped are
-- sequences of operations on the shared state (a compare-and-swap, a load, a lock operation); a
-- thread's program counter says which comes next, and `run` interleaves any number of threads by
-- any schedule. A deferred unlock is one operation with what is done before it under the lock:
-- the return of the function with the second compare-and-swap, or the load that refuses a call.
-- Ready and Healthy are functions on the state and are not interleaved.
pub mod Methods
pub mod Invariant
pub mod Safety
pub mod Settled
pub use Methods.*
