-- ===== src/Ios/Read/Tests.antt =====
-- Runs of the reading routines of libpoke/ios.c on a memory device of three bytes.
use poke.Base.{[], ◌≡◌, refl, [], arith}
use poke.Base.Int.{pos, ◌+ℤ◌}
use poke.Iod.{bytes_at}
use poke.Iod.Mem.{mem_dev_if, pread}
use poke.Iod.Mem.Laws.{contents}
use poke.Ios.Word.{lsb, msb, get_lsb, get_msb, shl_int, shl64}
use poke.Ios.Sample.{three, io, no_memory, three-IsBytes, three-IsValid}
use poke.Ios.Space.{place_of}
use poke.Ios.Field.{int_at, twos}
use poke.Ios.Read.Narrow.{read_case_1}
use poke.Ios.Read.Common.{ok, err, read_switch, read_int_common}
use poke.Ios.Read.Fast.{read_uint_fast, uint_16}
use poke.Ios.Read.Api.{fast_track, tracks, read_uint, read_int}
use poke.Iod.{ios_eof, iod_eof}
use poke.Ios.Read.Failures.{read_uint-fails, read_int-fails}
use poke.Ios.Read.OnMem.{read_uint_on_mem, read_int_on_mem}
use poke.Ios.Read.Results.{read_uint-int_at, read_int-int_at}

-- 0xabcdef read from bit 8 on, little endian, in sixteen bits and in twelve.
read_16 : read_uint (mem_dev_if no_memory) io (pos 4) 16 lsb ≡ (ok 0xefcd, io)
unfolding read_uint mem_dev_if pread ◌+ℤ◌ place_of tracks fast_track read_uint_fast uint_16 shl_int
read_16 = refl

read_12 : read_uint (mem_dev_if no_memory) io (pos 0) 12 lsb ≡ (ok 0xdbc, io)
unfolding read_uint mem_dev_if pread ◌+ℤ◌ place_of tracks read_int_common read_switch read_case_1
    get_lsb get_msb shl_int shl64
read_12 = refl

read_uint-int_at_example :
    read_uint (mem_dev_if no_memory) io (pos 0) 12 lsb ≡ (ok (int_at (contents three) lsb 4 12), io)
unfolding mem_dev_if pread bytes_at ◌+ℤ◌
read_uint-int_at_example =
    read_uint-int_at (mem_dev_if no_memory) (contents three) three-IsBytes io three (pos 0) 4 12 lsb
      (omega arith) (omega arith) refl refl refl

read_int-int_at_example :
    read_int (mem_dev_if no_memory) io (pos 4) 16 lsb
    ≡ (ok (twos 16 (int_at (contents three) lsb 8 16)), io)
unfolding mem_dev_if pread bytes_at ◌+ℤ◌
read_int-int_at_example =
    read_int-int_at (mem_dev_if no_memory) (contents three) three-IsBytes io three (pos 4) 8 16 lsb
      (omega arith) (omega arith) refl refl refl

-- Forty bits do not fit into the device.
read_uint-fails_example : read_uint (mem_dev_if no_memory) io (pos 0) 40 msb ≡ (err ios_eof, io)
unfolding mem_dev_if pread ◌+ℤ◌
read_uint-fails_example =
    read_uint-fails (mem_dev_if no_memory) io three iod_eof [] (omega arith) (pos 0) 4 40 msb
      (omega arith) refl refl refl

read_int-fails_example : read_int (mem_dev_if no_memory) io (pos 0) 40 msb ≡ (err ios_eof, io)
unfolding mem_dev_if pread ◌+ℤ◌
read_int-fails_example =
    read_int-fails (mem_dev_if no_memory) io three iod_eof [] (omega arith) (pos 0) 4 40 msb
      (omega arith) refl refl refl

read_uint_on_mem_example :
    read_uint (mem_dev_if no_memory) io (pos 0) 12 lsb ≡ (ok (int_at (contents three) lsb 4 12), io)
unfolding ◌+ℤ◌
read_uint_on_mem_example =
    read_uint_on_mem no_memory io three-IsValid three-IsBytes (pos 0) 4 12 lsb (omega arith)
      (omega arith) refl (omega arith) refl

read_int_on_mem_example :
    read_int (mem_dev_if no_memory) io (pos 0) 12 lsb
    ≡ (ok (twos 12 (int_at (contents three) lsb 4 12)), io)
unfolding ◌+ℤ◌
read_int_on_mem_example =
    read_int_on_mem no_memory io three-IsValid three-IsBytes (pos 0) 4 12 lsb (omega arith)
      (omega arith) refl (omega arith) refl
