-- ===== src/Keys.antt =====
-- lib/pygpgme-key.c: keys and their parts.
pub mod Getters
pub mod Parts
pub mod References
pub mod Heap
pub mod Counting
pub mod Lifetime
pub mod Steps
pub mod Safety
pub mod Tests
