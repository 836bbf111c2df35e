-- ===== src/Results.antt =====
-- lib/pygpgme-import.c and lib/pygpgme-genkey.c: the results of an import and of a key generation
-- (Build), and what they show of the C structures (Views). lib/pygpgme-engine-info.c: Engines.
pub mod Build
pub mod Views
pub mod Engines
pub mod Tests
