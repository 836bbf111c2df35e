-- ===== src/Gpgme.antt =====
-- The gpgme library as the extension sees it: the C structures that it fills in (Structs) and its
-- operations on a context (Engine), which are a parameter of the development.
pub mod Structs
pub mod Engine
pub mod Keys
