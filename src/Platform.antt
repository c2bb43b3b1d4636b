-- ===== src/Platform.antt =====
-- What lixy uses of code that it does not implement, as records of operations with the
-- documented behaviour of that code in separate records of laws.
pub mod Utlist
pub mod Resolver
pub mod Patricia
pub mod Format
pub use Utlist.{UtList, LawfulUtList}
