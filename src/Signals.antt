-- ===== src/Signals.antt =====
-- SOLNS/HW07 and SOLNS/HW08: programs that intercept, mask and send signals.
pub mod Log
pub mod Interceptor
pub mod Sigmasker
pub mod Sender
pub mod Family
pub mod Recording
pub mod Masking
pub mod Sending
pub mod Tests
