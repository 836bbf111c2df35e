-- ===== src/Classes.antt =====
-- The tables of the classes that the extension makes.
pub mod Spec
pub mod Results
pub mod Keys
pub mod Context
pub mod Lookup
pub mod Names
pub mod Fitting
pub mod Stub
pub mod Interface
pub mod Reach
pub mod Release
pub mod Released
pub mod Tests
