-- ===== src/Ios/Through/Tests.antt =====
-- Runs through a range of two bytes (libpoke/ios-dev-sub.c) of a memory device of three.
use poke.Base.{ℕ, ◌⊎◌, ◌<◌, ◌≤◌, ◌≡◌, refl, arith, false, [], ◌∷◌}
use poke.Base.Int.{pos, ◌+ℤ◌}
use poke.Iod.Mem.{MemDev, mem_dev_if, pread, pwrite}
use poke.Iod.Sub.{SubDev, sub_dev_if, ios_dev_sub_pread, ios_dev_sub_pwrite}
use poke.Ios.Word.{lsb, msb, get_msb, get_lsb, shl64}
use poke.Ios.Write.Cases.{write_switch, write_case_1, ordered}
use poke.Ios.Space.{Space, place_of}
use poke.Ios.Sample.{three, no_memory, no_memory-bounded, three-IsBytes, three-IsValid}
use poke.Ios.Read.Api.{read_uint, read_int}
use poke.Ios.Write.Api.{ios_mark_dirty_range, write_marked, write_tracks, write_uint, write_int}
use poke.Ios.Write.Common.{
  done, write_int_common, write_cases, write_case, get_c, put_first, put_case, put_bytes, put_c,
}
use poke.Ios.Through.{IsSub, on_range}
use poke.Ios.Through.Reads.{read_uint-on_sub, read_int-on_sub}
use poke.Ios.Through.Writes.{write_uint-on_sub, write_int-on_sub}
use poke.Ios.Range.{Tree}
use poke.Ios.Field.{int_at, bit_at}
use poke.Ios.Write.Order.{order_1, swap_2}
use poke.Iod.{ios_ok}
use poke.Ios.Read.Common.{ok}
use poke.Ios.Through.OnMem.{InRange, base_contents, write_uint_in_range, read-write_in_range}

abbrev last_two : SubDev MemDev
last_two = record {
  base_ios = record { dev = three; zombie_p = false; volatile_p = false; num_sub_devs = 1 };
  base = 1;
  size = 2;
  name = [];
  flags = 3;
}

abbrev space : Space (SubDev MemDev)
space = record {
  dev = last_two;
  bias = pos 0;
  ranges = record { count = 0; root = Tree.leaf };
  dirty = λ v. false;
}

abbrev whole : Space MemDev
whole = record {
  dev = three;
  bias = pos 0;
  ranges = record { count = 0; root = Tree.leaf };
  dirty = λ v. false;
}

last_two-IsSub : IsSub last_two
last_two-IsSub = record { there = refl; small = omega arith }

read_uint-on_sub_example :
    read_uint (sub_dev_if (mem_dev_if no_memory)) space (pos 4) 8 msb
    ≡ on_range space (read_uint (mem_dev_if no_memory) whole (pos 12) 8 msb)
unfolding mem_dev_if ◌+ℤ◌
read_uint-on_sub_example =
    read_uint-on_sub (mem_dev_if no_memory) space whole refl last_two-IsSub refl refl (pos 4)
      (pos 12) 4 refl refl (omega arith) 8 msb

read_int-on_sub_example :
    read_int (sub_dev_if (mem_dev_if no_memory)) space (pos 4) 8 msb
    ≡ on_range space (read_int (mem_dev_if no_memory) whole (pos 12) 8 msb)
unfolding mem_dev_if ◌+ℤ◌
read_int-on_sub_example =
    read_int-on_sub (mem_dev_if no_memory) space whole refl last_two-IsSub refl refl (pos 4)
      (pos 12) 4 refl refl (omega arith) 8 msb

write_uint-on_sub_example :
    write_uint (sub_dev_if (mem_dev_if no_memory)) space (pos 4) 12 lsb 0xabc
    ≡ on_range
        (ios_mark_dirty_range space (pos 4) (pos 16))
        (write_uint (mem_dev_if no_memory) whole (pos 12) 12 lsb 0xabc)
unfolding mem_dev_if ◌+ℤ◌
write_uint-on_sub_example =
    write_uint-on_sub (mem_dev_if no_memory) space whole refl last_two-IsSub refl refl refl refl
      (pos 4) (pos 12) 4 12 refl refl (omega arith) (omega arith) lsb 0xabc

write_int-on_sub_example :
    write_int (sub_dev_if (mem_dev_if no_memory)) space (pos 4) 12 lsb 0xabc
    ≡ on_range
        (ios_mark_dirty_range space (pos 4) (pos 16))
        (write_int (mem_dev_if no_memory) whole (pos 12) 12 lsb 0xabc)
unfolding mem_dev_if ◌+ℤ◌
write_int-on_sub_example =
    write_int-on_sub (mem_dev_if no_memory) space whole refl last_two-IsSub refl refl refl refl
      (pos 4) (pos 12) 4 12 refl refl (omega arith) (omega arith) lsb 0xabc

-- A write over the end of a range: the byte behind it reads as 0, and its other bits are lost.
abbrev middle : Space (SubDev MemDev)
middle = record space { dev = record last_two { size = 1 } }

write_over_end :
    (write_uint
      (sub_dev_if (mem_dev_if no_memory))
      middle
      (pos 4)
      8
      msb
      0x12).1.dev.base_ios.dev.pointer
    ≡ 0xab ∷ 0xc1 ∷ 0x20 ∷ []
unfolding sub_dev_if write_uint write_marked mem_dev_if ◌+ℤ◌ place_of write_tracks write_int_common
    write_cases write_case get_c put_first put_case put_bytes put_c pread pwrite ios_dev_sub_pread
    ios_dev_sub_pwrite write_switch write_case_1 get_msb get_lsb ordered shl64
write_over_end = refl

last_two-InRange : InRange space (pos 4) 4 12
unfolding ◌+ℤ◌
last_two-InRange = record {
  sub = last_two-IsSub;
  readable = refl;
  writable = refl;
  place = refl;
  inside = omega arith;
  ready = record {
    valid = three-IsValid;
    bytes = three-IsBytes;
    readable = refl;
    writable = refl;
    small = omega arith;
    some_bits = omega arith;
    width = omega arith;
  };
}

write_12 :
    (write_uint (sub_dev_if (mem_dev_if no_memory)) space (pos 4) 12 lsb 0xabc).0 ≡ done ios_ok
unfolding sub_dev_if write_uint write_marked mem_dev_if ◌+ℤ◌ place_of write_tracks write_int_common
    write_cases write_case get_c put_first put_case put_bytes put_c pread pwrite ios_dev_sub_pread
    ios_dev_sub_pwrite write_switch write_case_1 get_msb get_lsb ordered shl64 order_1 swap_2
write_12 = refl

abbrev written : Space (SubDev MemDev)
written = (write_uint (sub_dev_if (mem_dev_if no_memory)) space (pos 4) 12 lsb 0xabc).1

write_uint_in_range_example :
    (int_at (base_contents written) lsb 12 12 ≡ 0xabc)
    × ((p : ℕ)
        → (p < 8) ⊎ (24 ≤ p)
        → bit_at (base_contents written) p ≡ bit_at (base_contents space) p)
write_uint_in_range_example =
    write_uint_in_range no_memory no_memory-bounded space lsb (pos 4) 4 12 last_two-InRange 0xabc
      (omega arith) write_12

read-write_in_range_example :
    read_uint (sub_dev_if (mem_dev_if no_memory)) written (pos 4) 12 lsb ≡ (ok 0xabc, written)
read-write_in_range_example =
    read-write_in_range no_memory no_memory-bounded space lsb (pos 4) 4 12 last_two-InRange 0xabc
      (omega arith) write_12
