-- ===== src/Ios/Read/Common.antt =====
-- `ios_read_int_common` of libpoke/ios.c.
use poke.Base.{ℕ, zero, suc, ◌+◌, ◌-◌, ◌/◌, ◌%◌, ◌==◌, if◌then◌else◌, List, get_or}
use poke.Iod.{DevIf, iod_ok, iod_error_to_ios_error}
use poke.Ios.Space.{Place, at, ragged}
use poke.Ios.Word.{Endian, get_lsb}
use poke.Ios.Read.Narrow.{read_case_0, read_case_1, read_case_2, read_case_3, read_case_4}
use poke.Ios.Read.Wide.{read_case_5, read_case_6, read_case_7, read_case_8}

-- `ok` carries what is stored through the result pointer, as a 64-bit pattern; `err` an IOS status;
-- `abort` is PK_UNREACHABLE, and what C leaves undefined.
pub data ReadResult : Type 0 where
  ok : ℕ → ReadResult
  err : ℕ → ReadResult
  abort : ReadResult

-- `case bytes_minus1` of the switch, on the bytes `c` read.
unfoldable pub read_switch :
    (bytes_minus1 : ℕ) → Endian → (off bits lastbyte_bits : ℕ) → List ℕ → ReadResult
read_switch zero endian off bits lastbyte_bits c =
    ok (read_case_0 lastbyte_bits (get_lsb (get_or c 0 0) (8 - off)))
read_switch (suc zero) endian off bits lastbyte_bits c =
    ok (read_case_1 endian off bits lastbyte_bits (get_lsb (get_or c 0 0) (8 - off)) (get_or c 1 0))
read_switch (suc (suc zero)) endian off bits lastbyte_bits c = ok (
    read_case_2 endian off bits lastbyte_bits (get_lsb (get_or c 0 0) (8 - off)) (get_or c 1 0)
      (get_or c 2 0))
read_switch (suc (suc (suc zero))) endian off bits lastbyte_bits c = ok (
    read_case_3 endian off bits lastbyte_bits (get_lsb (get_or c 0 0) (8 - off)) (get_or c 1 0)
      (get_or c 2 0) (get_or c 3 0))
read_switch (suc (suc (suc (suc zero)))) endian off bits lastbyte_bits c = ok (
    read_case_4 endian off bits lastbyte_bits (get_lsb (get_or c 0 0) (8 - off)) (get_or c 1 0)
      (get_or c 2 0) (get_or c 3 0) (get_or c 4 0))
read_switch (suc (suc (suc (suc (suc zero))))) endian off bits lastbyte_bits c = ok (
    read_case_5 endian off bits lastbyte_bits (get_lsb (get_or c 0 0) (8 - off)) (get_or c 1 0)
      (get_or c 2 0) (get_or c 3 0) (get_or c 4 0) (get_or c 5 0))
read_switch (suc (suc (suc (suc (suc (suc zero)))))) endian off bits lastbyte_bits c = ok (
    read_case_6 endian off bits lastbyte_bits (get_lsb (get_or c 0 0) (8 - off)) (get_or c 1 0)
      (get_or c 2 0) (get_or c 3 0) (get_or c 4 0) (get_or c 5 0) (get_or c 6 0))
read_switch (suc (suc (suc (suc (suc (suc (suc zero))))))) endian off bits lastbyte_bits c = ok (
    read_case_7 endian off bits lastbyte_bits (get_lsb (get_or c 0 0) (8 - off)) (get_or c 1 0)
      (get_or c 2 0) (get_or c 3 0) (get_or c 4 0) (get_or c 5 0) (get_or c 6 0) (get_or c 7 0))
read_switch (suc (suc (suc (suc (suc (suc (suc (suc zero)))))))) endian off bits lastbyte_bits c =
    ok (
      read_case_8 endian off bits lastbyte_bits (get_lsb (get_or c 0 0) (8 - off)) (get_or c 1 0)
        (get_or c 2 0) (get_or c 3 0) (get_or c 4 0) (get_or c 5 0) (get_or c 6 0) (get_or c 7 0)
        (get_or c 8 0))
read_switch (suc (suc (suc (suc (suc (suc (suc (suc (suc n))))))))) endian off bits lastbyte_bits
      c =
    abort

-- The number of bits read from the last byte.
abbrev pub lastbyte_bits_of : ℕ → ℕ → ℕ
lastbyte_bits_of off bits = let n = (bits + off) % 8 in if n == 0 then 8 else n

module _ {D : Type 0} (dev_if : DevIf D) where
  -- At a negative offset off a byte boundary the first byte is masked by a negative shift.
  unfoldable pub read_int_common : D → Place → ℕ → Endian → ReadResult × D
  read_int_common dev (at off byte) bits endian =
      let firstbyte_bits = 8 - off in
      let bytes_minus1 = (bits + 7 - firstbyte_bits) / 8 in
      let (ret, c, dev') = dev_if.pread dev (bytes_minus1 + 1) byte in
      (
        if ret == iod_ok
            then read_switch bytes_minus1 endian off bits (lastbyte_bits_of off bits) c
            else err (iod_error_to_ios_error ret),
        dev',
      )
  read_int_common dev (ragged m byte) bits endian =
      let firstbyte_bits = 8 + m in
      let bytes_minus1 = (bits + 7 - firstbyte_bits) / 8 in
      let (ret, c, dev') = dev_if.pread dev (bytes_minus1 + 1) byte in
      (if ret == iod_ok then abort else err (iod_error_to_ios_error ret), dev')
