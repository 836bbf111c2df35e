-- ===== src/Data.antt =====
-- lib/pygpgme-data.c: the callbacks that gpgme makes on a Python file object (Callbacks), and what
-- they report to it (Reports, and for a whole file Reading).
pub mod Callbacks
pub mod Reading
pub mod Reports
pub mod Tests
