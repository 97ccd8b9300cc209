-- ===== src/Ios/Write/Tests.antt =====
-- Runs of the writing routines of libpoke/ios.c on memory devices of a few bytes.
use poke.Base.{ℕ, zero, suc, ◌≡◌, refl, false, [], ◌∷◌, arith, inr, true, ◌<◌, ◌≤◌, ◌+◌, ◌≢◌}
use poke.Base.Int.{pos, ◌+ℤ◌}
use poke.Iod.{ios_ok}
use poke.Iod.Mem.{MemDev, mem_dev_if, pread, pwrite}
use poke.Iod.Mem.Laws.{contents}
use poke.Ios.Word.{lsb, get_lsb, get_msb, shl64}
use poke.Ios.Range.{visit_overlaps, mark_each}
use poke.Ios.Space.{place_of}
use poke.Ios.Read.Common.{ok}
use poke.Ios.Read.Api.{read_uint, read_int}
use poke.Ios.Sample.{three, io, no_memory, no_memory-bounded, three-IsValid, three-IsBytes}
use poke.Ios.Read.CommonLaws.{bytes_spanned}
use poke.Ios.Write.Order.{order_1, swap_2}
use poke.Ios.Write.Cases.{ordered, write_switch, write_case_1}
use poke.Ios.Write.Common.{
  done, get_c, put_c, put_bytes, put_case, put_first, write_case, write_cases, write_int_common,
}
use poke.Ios.Write.Api.{write_uint, write_int, write_marked, write_tracks}
use poke.Ios.Write.Results.{Wrote, write_uint-Wrote, write_int-Wrote}
use poke.Ios.Write.OnMem.{Ready, Stored, write_uint_on_mem, write_int_on_mem}
use poke.Ios.Write.RoundTrip.{read-write_uint, read-write_int}

-- The device once 0x123 is written at bit 4, little endian, in twelve bits.
abbrev after : MemDev
after = record { pointer = 0xa2 ∷ 0x31 ∷ 0xef ∷ []; size = 3; flags = 3 }

write_12 :
    let (result, io') = write_uint (mem_dev_if no_memory) io (pos 0) 12 lsb 0x123 in
    (result ≡ done ios_ok) × (io'.dev ≡ after) × (io'.dirty 7 ≡ true) × (io'.dirty 8 ≡ false)
unfolding write_uint write_marked mem_dev_if pread pwrite ◌+ℤ◌ place_of write_tracks
    write_int_common write_cases write_case put_first put_case put_bytes get_c put_c ordered order_1
    swap_2 write_switch write_case_1 get_lsb get_msb shl64 visit_overlaps mark_each
write_12 = (refl, refl, refl, refl)

gets :
    (i : ℕ)
    → i < bytes_spanned 4 12
    → get_c (mem_dev_if no_memory) three (0 + i) ≡ (inr (contents three (0 + i)), three)
unfolding get_c mem_dev_if pread
gets zero h = refl
gets (suc zero) h = refl
gets (suc (suc i)) h = absurd (omega arith)

ready : Ready io 4 12
ready = record {
  valid = three-IsValid;
  bytes = three-IsBytes;
  readable = refl;
  writable = refl;
  small = omega arith;
  some_bits = omega arith;
  width = omega arith;
}

write_uint-Wrote_example :
    Wrote
      (mem_dev_if no_memory)
      io
      (contents three)
      lsb
      4
      12
      0x123
      (write_uint (mem_dev_if no_memory) io (pos 0) 12 lsb 0x123)
unfolding ◌+ℤ◌ mem_dev_if
write_uint-Wrote_example =
    write_uint-Wrote (mem_dev_if no_memory) io (contents three) three-IsBytes lsb (pos 0) 4 12
      (omega arith) (omega arith) refl (omega arith) refl refl gets 0x123 (omega arith)

write_int-Wrote_example :
    Wrote
      (mem_dev_if no_memory)
      io
      (contents three)
      lsb
      4
      12
      0xfff
      (write_int (mem_dev_if no_memory) io (pos 0) 12 lsb 0xffffffffffffffff)
unfolding ◌+ℤ◌ mem_dev_if
write_int-Wrote_example =
    write_int-Wrote (mem_dev_if no_memory) io (contents three) three-IsBytes lsb (pos 0) 4 12
      (omega arith) (omega arith) refl (omega arith) refl refl gets 0xffffffffffffffff

-- The write of `write_12` returns IOS_OK.
wrote_12 : (write_uint (mem_dev_if no_memory) io (pos 0) 12 lsb 0x123).0 ≡ done ios_ok
wrote_12 = write_12.0

write_uint_on_mem_example :
    let r = write_uint (mem_dev_if no_memory) io (pos 0) 12 lsb 0x123 in
    (r.0 ≡ done ios_ok → Stored io r.1 lsb 4 12 0x123)
    × (r.0 ≢ done ios_ok → r.1.dev ≡ three)
    × (2 ≤ 3 → r.0 ≡ done ios_ok)
unfolding ◌+ℤ◌
write_uint_on_mem_example =
    write_uint_on_mem no_memory no_memory-bounded io lsb (pos 0) 4 12 ready refl 0x123 (omega arith)

write_int_on_mem_example :
    let r = write_int (mem_dev_if no_memory) io (pos 0) 12 lsb 0xffffffffffffffff in
    (r.0 ≡ done ios_ok → Stored io r.1 lsb 4 12 0xfff)
    × (r.0 ≢ done ios_ok → r.1.dev ≡ three)
    × (2 ≤ 3 → r.0 ≡ done ios_ok)
unfolding ◌+ℤ◌
write_int_on_mem_example =
    write_int_on_mem no_memory no_memory-bounded io lsb (pos 0) 4 12 ready refl 0xffffffffffffffff

read-write_uint_example :
    let io' = (write_uint (mem_dev_if no_memory) io (pos 0) 12 lsb 0x123).1 in
    read_uint (mem_dev_if no_memory) io' (pos 0) 12 lsb ≡ (ok 0x123, io')
unfolding ◌+ℤ◌
read-write_uint_example =
    read-write_uint no_memory no_memory-bounded io lsb (pos 0) 4 12 ready refl 0x123 (omega arith)
      wrote_12

wrote_minus_1 :
    (write_int (mem_dev_if no_memory) io (pos 0) 12 lsb 0xffffffffffffffff).0 ≡ done ios_ok
unfolding ◌+ℤ◌
wrote_minus_1 =
    (write_int_on_mem no_memory no_memory-bounded io lsb (pos 0) 4 12 ready refl
        0xffffffffffffffff).2
      (omega arith)

read-write_int_example :
    let io' = (write_int (mem_dev_if no_memory) io (pos 0) 12 lsb 0xffffffffffffffff).1 in
    read_int (mem_dev_if no_memory) io' (pos 0) 12 lsb ≡ (ok 0xffffffffffffffff, io')
unfolding ◌+ℤ◌
read-write_int_example =
    read-write_int no_memory no_memory-bounded io lsb (pos 0) 4 12 ready refl 0xffffffffffffffff
      (inr (omega arith, omega arith)) wrote_minus_1
