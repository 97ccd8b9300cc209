-- ===== src/Ios/Through/Reads.antt =====
-- `ios_read_uint` and `ios_read_int` (libpoke/ios.c) through a range of another space
-- (libpoke/ios-dev-sub.c).
use poke.Base.{
  ℕ, ◌+◌, ◌-◌, ◌*◌, ◌/◌, ◌%◌, ◌<◌, ◌≡◌, refl, ap, true, ◌==◌, List, Option, none, some,
  if◌then◌else◌, ltb,
}
use poke.Base.Int.{ℤ, pos, ◌+ℤ◌}
use poke.Iod.{DevIf, iod_ok, iod_error_to_ios_error, ios_f_read, has_flag}
use poke.Iod.Sub.{SubDev, with_dev, sub_dev_if}
use poke.Ios.Word.{Endian}
use poke.Ios.Space.{Space, at}
use poke.Ios.Read.Common.{ReadResult, err, abort, read_int_common}
use poke.Ios.Read.Fast.{read_uint_fast, read_int_fast}
use poke.Ios.Read.Api.{
  fast_p, fast_track, tracks, or_else, read_uint, read_int, read_int_slow, extended,
}
use poke.Ios.Through.{IsSub, lifted, on_range, if_lifted, place_on, place_at, sub_pread_lem}

module _ {D : Type 0} (dev_if : DevIf D) (sub : SubDev D) (ready : IsSub sub)
    (readable : has_flag sub.flags ios_f_read ≡ true) where
  common-lifted :
      (off byte bits : ℕ) (endian : Endian)
      → byte < sub.size
      → read_int_common (sub_dev_if dev_if) sub (at off byte) bits endian
        ≡ lifted sub
            (read_int_common dev_if sub.base_ios.dev (at off (sub.base + byte)) bits endian)
  unfolding read_int_common sub_dev_if
  common-lifted off byte bits endian inside =
      rw (sub_pread_lem dev_if sub ready byte inside ((bits + 7 - (8 - off)) / 8 + 1) readable)

  or_else-lifted :
      (v : Option ℕ) (r : ReadResult × D) {rest : ReadResult × SubDev D} (dev : D)
      → rest ≡ lifted sub r
      → or_else v rest (with_dev sub dev) ≡ lifted sub (or_else v r dev)
  or_else-lifted none r dev same = same
  or_else-lifted (some v) r dev same = refl

  -- The tracks do the same on the device and on its base device when the slow ones do.
  module _ (switch : List ℕ → Option ℕ) (slow : D → ReadResult × D)
      (slow' : SubDev D → ReadResult × SubDev D)
      (same : (dev : D) → slow' (with_dev sub dev) ≡ lifted sub (slow dev)) (byte bits : ℕ)
      (inside : byte < sub.size) where
    fast_track-lifted :
        fast_track (sub_dev_if dev_if) switch slow' sub byte bits
        ≡ lifted sub (fast_track dev_if switch slow sub.base_ios.dev (sub.base + byte) bits)
    unfolding fast_track sub_dev_if
    fast_track-lifted =
        let (ret, c, dev') = dev_if.pread sub.base_ios.dev (bits / 8) (sub.base + byte) in
        let rest = or_else (switch c) (slow dev') dev' in
        let failed : ReadResult × D = (err (iod_error_to_ios_error ret), dev') in
        rw (sub_pread_lem dev_if sub ready byte inside (bits / 8) readable) (
          if_lifted sub (ret == iod_ok) (if ltb 64 bits then (abort, dev') else rest) failed
            (if_lifted sub (ltb 64 bits) (abort, dev') rest refl
              (or_else-lifted (switch c) (slow dev') dev' (same dev')))
            refl)

    tracks-lifted :
        (off : ℕ)
        → tracks (sub_dev_if dev_if) switch slow' sub (at off byte) bits
          ≡ lifted sub (tracks dev_if switch slow sub.base_ios.dev (at off (sub.base + byte)) bits)
    unfolding tracks
    tracks-lifted off =
        let fast = fast_track dev_if switch slow sub.base_ios.dev (sub.base + byte) bits in
        if_lifted sub (fast_p (at off byte) bits) fast (slow sub.base_ios.dev) fast_track-lifted
          (same sub.base_ios.dev)

-- The space `io` on a device for a range, and its base space.
module _ {D : Type 0} (dev_if : DevIf D) (io : Space (SubDev D)) (base : Space D)
    (same_dev : base.dev ≡ io.dev.base_ios.dev) (ready : IsSub io.dev)
    (readable : has_flag io.dev.flags ios_f_read ≡ true)
    (base_readable : has_flag (dev_if.get_flags base.dev) ios_f_read ≡ true) (offset offset' : ℤ)
    (o : ℕ) (at_o : offset +ℤ io.bias ≡ pos o)
    (at_o' : offset' +ℤ base.bias ≡ pos (8 * io.dev.base + o)) (inside : o / 8 < io.dev.size)
    (bits : ℕ) (endian : Endian) where
  slow-lifted :
      (dev : D)
      → read_int_common (sub_dev_if dev_if) (with_dev io.dev dev) (at (o % 8) (o / 8)) bits endian
        ≡ lifted io.dev (read_int_common dev_if dev (at (o % 8) (io.dev.base + o / 8)) bits endian)
  slow-lifted dev =
      common-lifted dev_if (with_dev io.dev dev)
        (record { there = ready.there; small = ready.small }) readable (o % 8) (o / 8) bits endian
        inside

  -- A readable space on an open range whose end does not wrap reads, at an offset that starts inside
  -- the range, what its readable base space reads at that offset from the base of the range: the same
  -- status or value, for each width and byte order, and the base device becomes the same.
  pub read_uint-on_sub :
      read_uint (sub_dev_if dev_if) io offset bits endian
      ≡ on_range io (read_uint dev_if base offset' bits endian)
  unfolding read_uint sub_dev_if
  read_uint-on_sub =
      rw (readable, base_readable, place_at o _ at_o, place_on io.dev.base o _ at_o', same_dev)
        (ap (λ (r : ReadResult × SubDev D). (r.0, record io { dev = r.1 }))
          (tracks-lifted dev_if io.dev ready readable (read_uint_fast bits endian) _ _ slow-lifted
            (o / 8) bits inside (o % 8)))

  extended-lifted :
      (dev : D)
      → read_int_slow (sub_dev_if dev_if) (at (o % 8) (o / 8)) bits endian (with_dev io.dev dev)
        ≡ lifted io.dev (read_int_slow dev_if (at (o % 8) (io.dev.base + o / 8)) bits endian dev)
  unfolding read_int_slow
  extended-lifted dev =
      ap (λ (r : ReadResult × SubDev D). (extended bits r.0, r.1)) (slow-lifted dev)

  -- `ios_read_int` does so as well.
  pub read_int-on_sub :
      read_int (sub_dev_if dev_if) io offset bits endian
      ≡ on_range io (read_int dev_if base offset' bits endian)
  unfolding read_int sub_dev_if
  read_int-on_sub =
      rw (readable, base_readable, place_at o _ at_o, place_on io.dev.base o _ at_o', same_dev)
        (ap (λ (r : ReadResult × SubDev D). (r.0, record io { dev = r.1 }))
          (tracks-lifted dev_if io.dev ready readable (read_int_fast bits endian) _ _
            extended-lifted (o / 8) bits inside (o % 8)))
