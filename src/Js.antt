-- ===== src/Js.antt =====
-- The values of the language as far as the application uses them: JSON trees, their conversions and
-- their property reads. Numbers are abstract: `Runtime` holds their operations.
mod Data
mod Engine
mod Convert
pub mod Reads
pub mod Demo
unfoldable pub use Data.*
pub use Engine.*
unfoldable pub use Convert.*
