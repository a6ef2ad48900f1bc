-- ===== src/Main.antt =====
-- main.c: the options, the order of the program's phases, and its exit codes.
pub mod Options
pub mod Verdict
pub mod Phases
pub mod Cleanup
