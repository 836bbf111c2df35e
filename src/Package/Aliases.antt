-- ===== src/Package/Aliases.antt =====
-- src/gpgme/__init__.py: the constants of older releases, names for the members of the enumerations.
pub mod Names
pub mod Others
pub mod Statuses
pub mod ErrCodes
pub mod All
pub mod Binding
pub mod Tests
