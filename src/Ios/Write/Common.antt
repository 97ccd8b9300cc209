-- ===== src/Ios/Write/Common.antt =====
-- `ios_write_int_fast` and `ios_write_int_common` of libpoke/ios.c.
use mathlib.Core.Bool.{not}
use poke.Base.{
  ℕ, zero, suc, ◌+◌, ◌-◌, ◌*◌, ◌/◌, ◌%◌, ◌^◌, ◌==◌, ltb, if◌then◌else◌, ◌⊎◌, inl, inr, List, get_or,
  Option, none, some, bit_and,
}
use poke.Iod.{
  DevIf, iod_ok, iod_eof, ios_ok, ios_eperm, ios_f_read, has_flag, iod_error_to_ios_error,
}
use poke.Ios.Word.{Endian, get_lsb, get_msb}
use poke.Ios.Space.{Place, at, ragged}
use poke.Ios.Read.Common.{lastbyte_bits_of}
use poke.Ios.Write.Cases.{ordered, write_case_0, write_switch}
use poke.Ios.Write.Fast.{write_bytes_fast}

-- `done` is a return, with an IOS status; `abort` is PK_UNREACHABLE, and what C leaves undefined.
pub data WriteResult : Type 0 where
  done : ℕ → WriteResult
  abort : WriteResult

-- What is left of the first byte: IOS_CHAR_GET_MSB by `offset % 8`.
abbrev pub leading : Place → ℕ → ℕ
leading (at off byte) c = get_msb c off
leading (ragged m byte) c = bit_and c (255 * 2 ^ (8 + m)) % 256

-- `bytes_minus1`
abbrev pub bytes_minus1_of : Place → ℕ → ℕ
bytes_minus1_of (at off byte) bits = (bits + 7 - (8 - off)) / 8
bytes_minus1_of (ragged m byte) bits = (bits + 7 - (8 + m)) / 8

-- `lastbyte_bits`; `none` is a negative number.
abbrev pub last_of : Place → ℕ → Option ℕ
last_of (at off byte) bits = some (lastbyte_bits_of off bits)
last_of (ragged m byte) bits =
    if ltb bits m then none else some (if (bits - m) % 8 == 0 then 8 else (bits - m) % 8)

-- `offset / 8 + k`, as the device takes it.
abbrev pub byte_at : Place → ℕ → ℕ
byte_at (at off byte) k = (byte + k) % 2 ^ 64
byte_at (ragged m byte) k = (byte + k) % 2 ^ 64

module _ {D : Type 0} (dev_if : DevIf D) where
  -- IOS_GET_C_ERR_CHCK: the status that is returned at once, or the byte.
  unfoldable pub get_c : D → ℕ → (ℕ ⊎ ℕ) × D
  get_c dev off =
      let (ret, ch, dev') = dev_if.pread dev 1 off in
      (
        if ret == iod_ok
            then inr (get_or ch 0 0)
            else if ret == iod_eof
            then inr 0
            else inl (iod_error_to_ios_error ret),
        dev',
      )

  -- IOS_PUT_C_ERR_CHCK and the `return IOS_OK` behind it.
  unfoldable pub put_c : D → List ℕ → ℕ → WriteResult × D
  put_c dev c off =
      let (ret, dev') = dev_if.pwrite dev c off in
      (if ret == iod_ok then done ios_ok else done (iod_error_to_ios_error ret), dev')

  -- What follows the first byte in `case 0`.
  unfoldable pub put_case_0 : Place → Option ℕ → ℕ → ℕ ⊎ ℕ → D → WriteResult × D
  put_case_0 place last value (inl status) dev = (done status, dev)
  put_case_0 place none value (inr c) dev = (abort, dev)
  put_case_0 place (some lastbyte_bits) value (inr c) dev =
      put_c dev (write_case_0 lastbyte_bits value (leading place c) (get_lsb c (8 - lastbyte_bits)))
        (byte_at place 0)

  -- The bytes of a switch that has the case.
  unfoldable pub put_bytes : Option (List ℕ) → ℕ → D → WriteResult × D
  put_bytes none off dev = (abort, dev)
  put_bytes (some c) off dev = put_c dev c off

  -- What follows the two bytes in the other cases.
  unfoldable pub put_case :
      Place → (bytes_minus1 : ℕ) → Option ℕ → ℕ → ℕ → ℕ ⊎ ℕ → D → WriteResult × D
  put_case place k last value c0 (inl status) dev = (done status, dev)
  put_case place k none value c0 (inr cn) dev = (abort, dev)
  put_case place k (some lastbyte_bits) value c0 (inr cn) dev =
      put_bytes (write_switch k lastbyte_bits value c0 (get_lsb cn (8 - lastbyte_bits)))
        (byte_at place 0) dev

  -- What follows the first of them.
  unfoldable pub put_first : Place → (bytes_minus1 : ℕ) → Option ℕ → ℕ → ℕ ⊎ ℕ → D → WriteResult × D
  put_first place k last value (inl status) dev = (done status, dev)
  put_first place k last value (inr c) dev =
      let (second, dev') = get_c dev (byte_at place k) in
      put_case place k last value (leading place c) second dev'

  -- Those cases.
  unfoldable pub write_case : Place → (bytes_minus1 : ℕ) → Option ℕ → ℕ → D → WriteResult × D
  write_case place k last value dev =
      let (first, dev') = get_c dev (byte_at place 0) in put_first place k last value first dev'

  -- The switch on `bytes_minus1`.
  unfoldable pub write_cases :
      Place → (bytes_minus1 : ℕ) → Option ℕ → Endian → (bits value : ℕ) → D → WriteResult × D
  write_cases place zero last endian bits value dev =
      let (first, dev1) = get_c dev (byte_at place 0) in put_case_0 place last value first dev1
  write_cases place (suc k) last endian bits value dev =
      if ltb 7 k
      then (abort, dev)
      else write_case place (suc k) last (ordered (suc k) endian bits value) dev

  unfoldable pub write_int_common : D → Place → ℕ → Endian → ℕ → WriteResult × D
  write_int_common dev place bits endian value =
      if not (has_flag (dev_if.get_flags dev) ios_f_read)
      then (done ios_eperm, dev)
      else write_cases place (bytes_minus1_of place bits) (last_of place bits) endian bits value dev

  unfoldable pub write_int_fast : D → ℕ → ℕ → Endian → ℕ → WriteResult × D
  write_int_fast dev byte bits endian value =
      put_bytes (write_bytes_fast bits endian value) byte dev
