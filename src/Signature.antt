-- ===== src/Signature.antt =====
-- lib/pygpgme-signature.c: the lists of signatures and notations that gpgme returns (Lists).
pub mod Lists
pub mod Views
pub mod Failures
pub mod Tests
pub mod Notation
