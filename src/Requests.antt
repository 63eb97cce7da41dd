-- ===== src/Requests.antt =====
-- pkg/capabilities/consensus/ocr3/requests: the store of ongoing consensus requests and the worker
-- that joins requests with responses.
pub mod Store
pub mod StoreInvariant
pub mod StoreQueue
pub mod Handler
pub mod HandlerSafety
pub mod HandlerRun
pub mod HandlerOnce
pub mod HandlerJoin
pub mod HandlerIdle
pub mod HandlerLost
pub mod Tests
