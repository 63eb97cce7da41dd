-- ===== src/Mailbox.antt =====
-- pkg/utils/mailbox/mailbox.go. Each method holds the mutex throughout. The queue is newest first.
pub mod Queue
pub mod Reverse
pub mod Fifo
pub mod Tests
