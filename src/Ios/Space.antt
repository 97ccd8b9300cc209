-- ===== src/Ios/Space.antt =====
-- The part of `struct ios` (libpoke/ios.c) that the integer operations use, and how a bit offset,
-- which is signed, is split into a byte offset and a bit in that byte.
use poke.Base.{ℕ, suc, ◌-◌, ◌/◌, ◌%◌, ◌^◌, ◌==◌, if◌then◌else◌, Bool}
use poke.Ios.Range.{RangeTbl}
use poke.Base.Int.{ℤ, pos, negsuc}

-- The device that the space operates, its bias in bits, the table of the values mapped in it, and
-- which of those values are dirty.
pub record Space (D : Type 0) : Type 0 where
  pub dev : D
  pub bias : ℤ
  pub ranges : RangeTbl
  pub dirty : ℕ → Bool

-- `offset % 8` and `(ios_dev_off) (offset / 8)`. Division truncates, and the cast to `uint64_t` wraps.
-- `ragged m byte` is a negative offset with the remainder -m.
pub data Place : Type 0 where
  at : ℕ → ℕ → Place
  ragged : ℕ → ℕ → Place

unfoldable pub place_of : ℤ → Place
place_of (pos n) = at (n % 8) (n / 8)
place_of (negsuc k) =
    let n = suc k in
    let byte = (2 ^ 64 - n / 8) % 2 ^ 64 in if n % 8 == 0 then at 0 byte else ragged (n % 8) byte
