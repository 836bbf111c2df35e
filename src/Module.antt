-- ===== src/Module.antt =====
-- lib/gpgme.c and `make_enum` of lib/pygpgme-constants.c: how the module is set up and cleared.
pub mod State
pub mod Exec
pub mod Init
pub mod Collect
pub mod Fields
pub mod Owners
pub mod Balance
pub mod Clear
pub mod Tests
