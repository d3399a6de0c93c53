-- ===== src/Exercises.antt =====
-- The exercises of a student under hw2/ to hw8/, beside the solutions under SOLNS/.
pub mod Walk
pub mod Walking
pub mod Random
pub mod Quit
pub mod Product
mod Tests
