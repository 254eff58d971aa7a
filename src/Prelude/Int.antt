-- ===== src/Prelude/Int.antt =====
-- Python's integers over the native numbers, under the library's names.
mod Laws
mod Defs
pub use Laws.*
unfoldable pub use Defs.*
