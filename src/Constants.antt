-- ===== src/Constants.antt =====
-- lib/pygpgme-constants.c: the objects that stand for C enumeration values, and their classes.
pub mod Lookup
pub mod Values
pub mod Enums
pub mod Tables
pub mod Members
pub mod Tests
