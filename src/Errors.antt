-- ===== src/Errors.antt =====
-- lib/pygpgme-error.c: `gpgme_error_t` values become Python exceptions and come back from them.
pub mod Convert
pub mod RoundTrip
pub mod Pending
pub mod View
pub mod Tests
