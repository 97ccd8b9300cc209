-- ===== src/Ios/Read/Api.antt =====
-- `ios_read_uint` and `ios_read_int` of libpoke/ios.c. The arguments `flags` and `nenc`, which the
-- code does not use, are left out.
use poke.Base.{ℕ, ◌-◌, ◌/◌, ◌%◌, ◌==◌, ◌&&◌, ltb, if◌then◌else◌, Bool, Option, none, some, List}
use poke.Base.Int.{ℤ, ◌+ℤ◌}
use poke.Iod.{DevIf, iod_ok, ios_eperm, ios_f_read, has_flag, iod_error_to_ios_error}
use poke.Ios.Space.{Space, Place, at, ragged, place_of}
use poke.Ios.Word.{Endian}
use poke.Ios.Read.Common.{ReadResult, ok, err, abort, read_int_common}
use poke.Ios.Read.Fast.{read_uint_fast, read_int_fast, sign_extend}

-- `offset % 8 == 0 && bits % 8 == 0`
abbrev pub fast_p : Place → ℕ → Bool
fast_p (at off byte) bits = (off == 0) && (bits % 8 == 0)
fast_p (ragged m byte) bits = Bool.false

abbrev pub byte_of_place : Place → ℕ
byte_of_place (at off byte) = byte
byte_of_place (ragged m byte) = byte

-- A `case` of the switch returns; a width without one goes on below it.
abbrev pub or_else : {D : Type 0} → Option ℕ → ReadResult × D → D → ReadResult × D
or_else none rest dev = rest
or_else (some v) rest dev = (ok v, dev)

-- The cast at the end of `ios_read_int`.
abbrev pub extended : ℕ → ReadResult → ReadResult
extended bits (ok v) = ok (sign_extend v (64 - bits))
extended bits (err e) = err e
extended bits abort = abort

module _ {D : Type 0} (dev_if : DevIf D) where
  -- The fast track. More than 8 bytes overflow its buffer.
  unfoldable pub fast_track :
      (List ℕ → Option ℕ) → (D → ReadResult × D) → D → ℕ → ℕ → ReadResult × D
  fast_track switch rest dev byte bits =
      let (ret, c, dev') = dev_if.pread dev (bits / 8) byte in
      if ret == iod_ok
      then if ltb 64 bits then (abort, dev') else or_else (switch c) (rest dev') dev'
      else (err (iod_error_to_ios_error ret), dev')

  -- The fast track for whole bytes at a byte boundary; all else goes on below it.
  unfoldable pub tracks :
      (List ℕ → Option ℕ) → (D → ReadResult × D) → D → Place → ℕ → ReadResult × D
  tracks switch slow dev place bits =
      if fast_p place bits then fast_track switch slow dev (byte_of_place place) bits else slow dev

  -- What follows the fast track in `ios_read_int`.
  unfoldable pub read_int_slow : Place → ℕ → Endian → D → ReadResult × D
  read_int_slow place bits endian dev =
      let (result, dev') = read_int_common dev_if dev place bits endian in
      (extended bits result, dev')

  unfoldable pub read_uint : Space D → ℤ → ℕ → Endian → ReadResult × Space D
  unfolding place_of
  read_uint io offset bits endian =
      let place = place_of (offset +ℤ io.bias) in
      let slow = λ (dev : D). read_int_common dev_if dev place bits endian in
      let (result, dev') = tracks (read_uint_fast bits endian) slow io.dev place bits in
      if has_flag (dev_if.get_flags io.dev) ios_f_read
      then (result, record io { dev = dev' })
      else (err ios_eperm, io)

  unfoldable pub read_int : Space D → ℤ → ℕ → Endian → ReadResult × Space D
  unfolding place_of
  read_int io offset bits endian =
      let place = place_of (offset +ℤ io.bias) in
      let slow = read_int_slow place bits endian in
      let (result, dev') = tracks (read_int_fast bits endian) slow io.dev place bits in
      if has_flag (dev_if.get_flags io.dev) ios_f_read
      then (result, record io { dev = dev' })
      else (err ios_eperm, io)
