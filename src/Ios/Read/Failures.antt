-- ===== src/Ios/Read/Failures.antt =====
-- What `ios_read_uint` and `ios_read_int` (libpoke/ios.c) do when the device does not read.
use poke.Base.{ℕ, ◌+◌, ◌-◌, ◌/◌, ◌%◌, ◌<◌, ◌≡◌, ◌≢◌, true, false, arith, ◌==◌, List, Option}
use poke.Base.Int.{ℤ, pos, ◌+ℤ◌}
use poke.Iod.{DevIf, iod_ok, ios_f_read, has_flag}
use poke.Ios.Word.{Endian}
use poke.Ios.Space.{Space, at}
use poke.Ios.Read.Common.{ReadResult, err, read_int_common}
use poke.Ios.Read.CommonLaws.{bytes_spanned}
use poke.Ios.Read.Fast.{read_uint_fast, read_int_fast}
use poke.Ios.Read.Api.{fast_track, read_uint, read_int, read_int_slow}
use poke.Ios.Read.Results.{tracks-at}

module _ {D : Type 0} (dev_if : DevIf D) (io : Space D) (dev' : D) (status : ℕ) (c : List ℕ)
    (bad : status ≢ iod_ok) (offset : ℤ) (o bits : ℕ) (endian : Endian) (some_bits : 0 < bits)
    (place : offset +ℤ io.bias ≡ pos o)
    (readable : has_flag (dev_if.get_flags io.dev) ios_f_read ≡ true)
    (fails : dev_if.pread io.dev (bytes_spanned (o % 8) bits) (o / 8) ≡ (status, c, dev')) where
  not_ok : (status == iod_ok) ≡ false
  not_ok = ground arith

  fast_track-fails :
      (switch : List ℕ → Option ℕ) (slow : D → ReadResult × D)
      → o % 8 ≡ 0
      → bits % 8 ≡ 0
      → fast_track dev_if switch slow io.dev (o / 8) bits ≡ (err status, dev')
  unfolding fast_track
  fast_track-fails switch slow e f =
      rw (let g : bits / 8 ≡ bytes_spanned (o % 8) bits = omega arith in g, fails, not_ok)

  common-fails : read_int_common dev_if io.dev (at (o % 8) (o / 8)) bits endian ≡ (err status, dev')
  unfolding read_int_common
  common-fails = rw (
    let g : (bits + 7 - (8 - o % 8)) / 8 + 1 ≡ bytes_spanned (o % 8) bits = omega arith in g,
    fails,
    not_ok,
  )

  -- A readable space whose device fails to read the bytes that the integer lies in, with a status
  -- other than IOD_OK, gives that status on both tracks, and keeps what the device became.
  pub read_uint-fails :
      read_uint dev_if io offset bits endian ≡ (err status, record io { dev = dev' })
  unfolding read_uint
  read_uint-fails =
      let both =
        tracks-at dev_if (read_uint_fast bits endian)
          (λ dev. read_int_common dev_if dev (at (o % 8) (o / 8)) bits endian) io.dev (o % 8)
          (o / 8) bits (λ e f. fast_track-fails _ _ e f) (λ odd. common-fails) in
      rw (readable, place, both)

  -- On such a space `ios_read_int` gives that status as well, on both tracks.
  pub read_int-fails :
      read_int dev_if io offset bits endian ≡ (err status, record io { dev = dev' })
  unfolding read_int read_int_slow
  read_int-fails =
      let both =
        tracks-at dev_if (read_int_fast bits endian)
          (read_int_slow dev_if (at (o % 8) (o / 8)) bits endian) io.dev (o % 8) (o / 8) bits
          (λ e f. fast_track-fails _ _ e f) (λ odd. rw common-fails) in
      rw (readable, place, both)
