-- ===== src/Ios/Write/Swap.antt =====
-- The orders of libpoke/ios.c are the message of the value.
mod Group
mod Narrow
mod Wide
pub use Narrow.*
pub use Wide.*
