-- ===== src/Wire.antt =====
-- crates/core/src/error.rs and the byte readers and writers at the end of crates/core/src/format.rs.
-- A byte slice is a list of numbers, a `usize` is a 64-bit word.
mod Errors
mod Buffers
pub mod Slices
pub mod Words
pub mod Writes
pub mod ReadBack
pub mod Inverse
pub mod Fronts
pub use Errors.*
unfoldable pub use Buffers.*
