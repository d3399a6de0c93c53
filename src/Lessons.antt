-- ===== src/Lessons.antt =====
-- Programs of examples/examples02: ex4.c (Factorial) and ex5.c (Joining).
pub mod Factorial
pub mod Joining
mod Tests
