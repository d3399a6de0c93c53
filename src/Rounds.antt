-- ===== src/Rounds.antt =====
-- Two threads that go through four rounds each: examples/example-thrd/thrd2.c (Waiting),
-- examples/example-thrd/thrd_unnamedsem.c (Guarded), and hw11/hw11.c (Sharing).
pub mod Waiting
pub mod Guarded
pub mod Sharing
mod Tests
