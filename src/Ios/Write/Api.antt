-- ===== src/Ios/Write/Api.antt =====
-- `ios_write_uint` and `ios_write_int` of libpoke/ios.c. The arguments `flags` and `nenc`, which the
-- code does not use, are left out; values are 64-bit patterns.
use poke.Base.{ℕ, ◌-◌, if◌then◌else◌}
use poke.Base.Int.{ℤ, pos, ◌+ℤ◌}
use poke.Iod.{DevIf, ios_eperm, ios_f_write, has_flag}
use poke.Ios.Word.{Endian, shl64, shr}
use poke.Ios.Range.{ios_rangetbl_dirty}
use poke.Ios.Space.{Space, Place, place_of}
use poke.Ios.Read.Api.{fast_p, byte_of_place}
use poke.Ios.Write.Common.{WriteResult, done, write_int_fast, write_int_common}

-- `ios_mark_dirty_range`
abbrev pub ios_mark_dirty_range : {D : Type 0} → Space D → ℤ → ℤ → Space D
ios_mark_dirty_range io begin end = record io {
  dirty = ios_rangetbl_dirty io.ranges begin end io.dirty;
}

-- The sign bits of an `int64_t` above `bits` are cleared.
unfoldable pub uvalue : ℕ → ℕ → ℕ
unfolding shl64
uvalue bits value = let unused_bits = 64 - bits in shr (shl64 value unused_bits) unused_bits

module _ {D : Type 0} (dev_if : DevIf D) where
  -- The two tracks; `value` goes to the fast one, `slow` to the other.
  unfoldable pub write_tracks : D → Place → ℕ → Endian → (value slow : ℕ) → WriteResult × D
  write_tracks dev place bits endian value slow =
      if fast_p place bits
      then write_int_fast dev_if dev (byte_of_place place) bits endian value
      else write_int_common dev_if dev place bits endian slow

  -- What `ios_write_uint` and `ios_write_int` share.
  unfoldable pub write_marked : Space D → ℤ → ℕ → Endian → (value slow : ℕ) → WriteResult × Space D
  unfolding place_of
  write_marked io offset bits endian value slow =
      let begin = offset +ℤ io.bias in
      let io' = ios_mark_dirty_range io begin (begin +ℤ pos bits) in
      let (result, dev') = write_tracks io'.dev (place_of begin) bits endian value slow in
      if has_flag (dev_if.get_flags io.dev) ios_f_write
      then (result, record io' { dev = dev' })
      else (done ios_eperm, io)

  unfoldable pub write_uint : Space D → ℤ → ℕ → Endian → ℕ → WriteResult × Space D
  unfolding write_marked
  write_uint io offset bits endian value = write_marked io offset bits endian value value

  unfoldable pub write_int : Space D → ℤ → ℕ → Endian → ℕ → WriteResult × Space D
  unfolding write_marked uvalue
  write_int io offset bits endian value =
      write_marked io offset bits endian value (uvalue bits value)
