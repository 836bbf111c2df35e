-- ===== src/Package.antt =====
-- src/gpgme: the Python files of the package.
pub mod Aliases
pub mod Editor
