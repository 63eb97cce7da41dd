-- ===== src/Services.antt =====
-- pkg/services: the start/stop state machine under concurrent callers, and its error buffer.
pub mod ErrorBuffer
pub mod StateMachine
pub mod Multi
pub mod MultiLaws
pub mod MultiTests
pub mod Tests
