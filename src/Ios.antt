-- ===== src/Ios.antt =====
-- libpoke/ios.c: integers of any width at any bit offset of an IO space.
pub mod Word
pub mod Field
pub mod Range
pub mod Space
pub mod Sample
pub mod Read
pub mod Write
pub mod Through
pub mod OnZero
