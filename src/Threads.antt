-- ===== src/Threads.antt =====
-- lib/pygpgme-context.c, lib/pygpgme-data.c: the interpreter lock and the mutex of one context, taken
-- by any number of threads in any order.
pub mod Moves
pub mod Invariant
pub mod Safety
pub mod Iteration
pub mod Tests
