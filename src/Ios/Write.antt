-- ===== src/Ios/Write.antt =====
-- libpoke/ios.c: writing an integer.
pub mod Order
pub mod Cases
pub mod Fast
pub mod Message
pub mod Swap
pub mod Bytes
pub mod Stored
pub mod Span
pub mod Ordered
pub mod Single
pub mod FastBytes
pub mod FastLaws
pub mod CommonLaws
pub mod Results
pub mod OnMem
pub mod RoundTrip
mod Tests
pub mod Common
pub mod Api
