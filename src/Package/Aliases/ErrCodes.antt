-- ===== src/Package/Aliases/ErrCodes.antt =====
-- src/gpgme/__init__.py: the constants for the error codes, in three parts.
mod First
mod Second
mod Third
pub use First.*
pub use Second.*
pub use Third.*
