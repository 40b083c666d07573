-- ===== src/RangeSets.antt =====
-- The crate `rangeset`, which the repository calls and does not hold: an interface that
-- core/src/transcript.rs takes as a parameter. A set of indices is seen through its ranges, which
-- are not empty and come in increasing order.
mod Ranges
pub mod Bounds
pub mod Bitmap
unfoldable pub use Ranges.*
