-- ===== src/Ios/Read/OnMem.antt =====
-- `ios_read_uint` and `ios_read_int` (libpoke/ios.c) on the memory device (libpoke/ios-dev-mem.c).
use native.Mathlib.Decide.{dec_le}
use poke.Base.{
  ℕ, ◌+◌, ◌/◌, ◌%◌, ◌^◌, ◌≤◌, ◌<◌, ◌≡◌, ◌∙◌, arith, Bool, true, false, leb, if◌then◌else◌, [],
}
use poke.Base.Int.{ℤ, pos, ◌+ℤ◌}
use poke.Iod.{iod_ok, iod_eof, ios_eof, ios_f_read, has_flag, bytes_at}
use poke.Iod.Mem.{MemDev, mem_dev_if, pread}
use poke.Iod.Mem.Laws.{IsValid, contents, pread_lem}
use poke.Ios.Word.{Endian}
use poke.Ios.Space.{Space}
use poke.Ios.Field.{IsBytes, int_at, twos}
use poke.Ios.Read.Common.{ok, err}
use poke.Ios.Read.CommonLaws.{bytes_spanned}
use poke.Ios.Read.Api.{read_uint, read_int}
use poke.Ios.Read.Results.{read_uint-int_at, read_int-int_at}
use poke.Ios.Read.Failures.{read_uint-fails, read_int-fails}

module _ (reallocated : ℕ → Bool) (io : Space MemDev) (valid : IsValid io.dev)
    (bytes : IsBytes (contents io.dev)) (offset : ℤ) (o bits : ℕ) (endian : Endian)
    (some_bits : 0 < bits) (width : bits ≤ 64) (place : offset +ℤ io.bias ≡ pos o)
    (small : o < 2 ^ 63) (readable : has_flag io.dev.flags ios_f_read ≡ true) where
  -- The byte behind the last one of the integer.
  abbrev end : ℕ
  end = o / 8 + bytes_spanned (o % 8) bits

  inside :
      end ≤ io.dev.size
      → pread io.dev (bytes_spanned (o % 8) bits) (o / 8)
        ≡ (iod_ok, bytes_at (contents io.dev) (o / 8) (bytes_spanned (o % 8) bits), io.dev)
  inside h =
      pread_lem io.dev (bytes_spanned (o % 8) bits) (o / 8) valid (omega arith)
      ∙ rw (let e : leb end io.dev.size ≡ true = ground arith in e)

  outside :
      io.dev.size < end → pread io.dev (bytes_spanned (o % 8) bits) (o / 8) ≡ (iod_eof, [], io.dev)
  outside h =
      pread_lem io.dev (bytes_spanned (o % 8) bits) (o / 8) valid (omega arith)
      ∙ rw (let e : leb end io.dev.size ≡ false = ground arith in e)

  -- On a valid memory device that is readable and holds bytes, an unsigned read at a bit offset from
  -- 0 to 2 ^ 63 stores the integer when each byte of it is in the device, and gives IOS_EOF when one
  -- is not; the space is unchanged either way.
  pub read_uint_on_mem : read_uint (mem_dev_if reallocated) io offset bits endian ≡ (
      if leb end io.dev.size
      then (ok (int_at (contents io.dev) endian o bits), io)
      else (err ios_eof, io))
  unfolding mem_dev_if
  read_uint_on_mem = elim (dec_le end io.dev.size) [
    | yes h ↦ rw (let e : leb end io.dev.size ≡ true = ground arith in e) (
        read_uint-int_at (mem_dev_if reallocated) (contents io.dev) bytes io io.dev offset o bits
          endian some_bits width place readable (inside h))
    | no h ↦ rw (let e : leb end io.dev.size ≡ false = ground arith in e) (
        read_uint-fails (mem_dev_if reallocated) io io.dev iod_eof [] (omega arith) offset o bits
          endian some_bits place readable (outside (omega arith)))
  ]

  -- On such a device a signed read stores the 64-bit pattern of the integer that those bits are in
  -- two's complement, or gives IOS_EOF, in the same cases.
  pub read_int_on_mem : read_int (mem_dev_if reallocated) io offset bits endian ≡ (
      if leb end io.dev.size
      then (ok (twos bits (int_at (contents io.dev) endian o bits)), io)
      else (err ios_eof, io))
  unfolding mem_dev_if
  read_int_on_mem = elim (dec_le end io.dev.size) [
    | yes h ↦ rw (let e : leb end io.dev.size ≡ true = ground arith in e) (
        read_int-int_at (mem_dev_if reallocated) (contents io.dev) bytes io io.dev offset o bits
          endian some_bits width place readable (inside h))
    | no h ↦ rw (let e : leb end io.dev.size ≡ false = ground arith in e) (
        read_int-fails (mem_dev_if reallocated) io io.dev iod_eof [] (omega arith) offset o bits
          endian some_bits place readable (outside (omega arith)))
  ]
