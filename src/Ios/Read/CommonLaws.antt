-- ===== src/Ios/Read/CommonLaws.antt =====
-- `ios_read_int_common` on a device that reads.
use poke.Base.{ℕ, ◌+◌, ◌-◌, ◌*◌, ◌/◌, ◌%◌, ◌≤◌, ◌<◌, ◌≡◌, ◌≢◌, ap, arith}
use poke.Iod.{DevIf, iod_ok, bytes_at, get_or-bytes_at}
use poke.Ios.Word.{Endian}
use poke.Ios.Space.{at}
use poke.Ios.Field.{IsBytes, int_at}
use poke.Ios.Read.Common.{ok, read_int_common, lastbyte_bits_of}
use poke.Ios.Read.SwitchAll.{switch-int_at}

-- The number of bytes in which `bits` bits from bit `off` of a byte lie.
abbrev pub bytes_spanned : ℕ → ℕ → ℕ
bytes_spanned off bits = (off + bits + 7) / 8

-- A pread of those bytes that succeeds makes the routine store the integer.
pub read_int_common-int_at :
    {D : Type 0} (dev_if : DevIf D) (mem : ℕ → ℕ) (bytes : IsBytes mem) (dev dev' : D)
    (off byte bits : ℕ) (endian : Endian)
    → off < 8
    → 0 < bits
    → bits ≤ 64
    → (off ≡ 0 → bits % 8 ≢ 0)
    → dev_if.pread dev (bytes_spanned off bits) byte
      ≡ (iod_ok, bytes_at mem byte (bytes_spanned off bits), dev')
    → read_int_common dev_if dev (at off byte) bits endian
      ≡ (ok (int_at mem endian (8 * byte + off) bits), dev')
unfolding read_int_common
read_int_common-int_at dev_if mem bytes dev dev' off byte bits endian in_byte some width odd reads =
    let k = (bits + 7 - (8 - off)) / 8 in
    let count : k + 1 ≡ bytes_spanned off bits = omega arith in
    rw (count, reads)
      (ap (λ x. (x, dev'))
        (switch-int_at mem bytes byte off in_byte bits (lastbyte_bits_of off bits) (ground arith)
          (bytes_at mem byte (bytes_spanned off bits)) (ground arith) some width odd k endian
          (λ i h. get_or-bytes_at mem byte (bytes_spanned off bits) i (omega arith))
          (ground arith)))
