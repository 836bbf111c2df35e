-- ===== src/Context.antt =====
-- lib/pygpgme-context.c: the methods of `Context`, one call of one thread at a time. World holds the
-- state of a call, Resources what it allocates and locks, the others the methods and their proofs.
pub mod World
pub mod Resources
pub mod Annotate
pub mod Crypt
pub mod Patterns
pub mod Keyring
pub mod Keyiter
pub mod Calls
pub mod Calm
pub mod Balance
pub mod Attributes
pub mod Outcome
pub mod Tests
pub mod Notations
pub mod Signers
pub mod Callbacks
pub mod Settings
pub mod Life
pub mod Lifetime
