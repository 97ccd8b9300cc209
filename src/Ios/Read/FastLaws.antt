-- ===== src/Ios/Read/FastLaws.antt =====
-- The byte-aligned branches of `ios_read_uint` and `ios_read_int`: the bytes joined are the integer.
mod Join
mod UintNarrow
mod UintWide
mod IntNarrow
mod IntWide
pub use Join.{HoldsBytes}
pub use UintNarrow.*
pub use UintWide.*
pub use IntNarrow.*
pub use IntWide.*
