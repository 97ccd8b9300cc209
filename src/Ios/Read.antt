-- ===== src/Ios/Read.antt =====
-- libpoke/ios.c: reading an integer.
pub mod Narrow
pub mod Wide
pub mod Concat
pub mod Msb
pub mod Realign
pub mod LsbNarrow
pub mod LsbWide
pub mod LsbNine
pub mod LsbAligned
pub mod Common
pub mod Fast
pub mod SwitchMsb
pub mod SwitchLsbNarrow
pub mod SwitchLsbWide
pub mod SwitchLsbNine
pub mod SwitchAligned
pub mod SwitchShort
pub mod SwitchAll
pub mod Api
pub mod CommonLaws
pub mod FastLaws
pub mod Sign
pub mod Results
pub mod Failures
pub mod OnMem
mod Tests
