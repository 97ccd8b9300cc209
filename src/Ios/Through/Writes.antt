-- ===== src/Ios/Through/Writes.antt =====
-- `ios_write_uint` and `ios_write_int` (libpoke/ios.c) through a range of another space
-- (libpoke/ios-dev-sub.c).
use poke.Base.{
  ℕ, zero, suc, ◌+◌, ◌*◌, ◌/◌, ◌%◌, ◌≤◌, ◌<◌, ◌≡◌, refl, sym, ◌∙◌, ap, arith, true, List, Option,
  none, some, ◌⊎◌, inl, inr, ltb,
}
use poke.Base.Int.{ℤ, pos, ◌+ℤ◌}
use poke.Iod.{DevIf, ios_f_read, ios_f_write, has_flag}
use poke.Iod.Sub.{SubDev, with_dev, sub_dev_if}
use poke.Ios.Word.{Endian}
use poke.Ios.Space.{Space, Place, at}
use poke.Ios.Write.Common.{
  WriteResult, abort, byte_at, last_of, bytes_minus1_of, get_c, put_c, put_case_0, put_case,
  put_first, put_bytes, write_case, write_cases, write_int_common, write_int_fast,
}
use poke.Ios.Write.Cases.{ordered}
use poke.Ios.Write.Fast.{write_bytes_fast}
use poke.Ios.Read.Api.{fast_p}
use poke.Ios.Write.Api.{
  ios_mark_dirty_range, write_tracks, write_marked, write_uint, write_int, uvalue,
}
use poke.Ios.Through.{
  IsSub, lifted, on_range, if_lifted, place_on, place_at, sub_pread_lem, sub_pwrite_lem,
}

module _ {D : Type 0} (dev_if : DevIf D) (sub : SubDev D) (ready : IsSub sub)
    (readable : has_flag sub.flags ios_f_read ≡ true)
    (writable : has_flag sub.flags ios_f_write ≡ true) where
  with_dev-IsSub : (dev : D) → IsSub (with_dev sub dev)
  with_dev-IsSub dev = record { there = ready.there; small = ready.small }

  module _ (off byte k : ℕ) (inside : byte + k < sub.size) where
    abbrev here : ℕ
    here = byte_at (at off byte) k

    abbrev there : ℕ
    there = byte_at (at off (sub.base + byte)) k

    here_inside : here < sub.size
    here_inside = omega (arith, ready.small)

    there_lem : sub.base + here ≡ there
    there_lem = omega (arith, ready.small)

    get_c-lifted :
        (dev : D)
        → get_c (sub_dev_if dev_if) (with_dev sub dev) here ≡ lifted sub (get_c dev_if dev there)
    unfolding get_c sub_dev_if
    get_c-lifted dev = rw (
      sub_pread_lem dev_if (with_dev sub dev) (with_dev-IsSub dev) here here_inside 1 readable,
      there_lem,
    )

    put_c-lifted :
        (dev : D) (c : List ℕ)
        → put_c (sub_dev_if dev_if) (with_dev sub dev) c here
          ≡ lifted sub (put_c dev_if dev c there)
    unfolding put_c sub_dev_if
    put_c-lifted dev c = rw (
      sub_pwrite_lem dev_if (with_dev sub dev) (with_dev-IsSub dev) here here_inside c writable,
      there_lem,
    )

  module _ (off byte : ℕ) where
    abbrev place : Place
    place = at off byte

    abbrev place' : Place
    place' = at off (sub.base + byte)

    put_case_0-lifted :
        (last : Option ℕ) (value : ℕ) (first : ℕ ⊎ ℕ) (dev : D)
        → byte + 0 < sub.size
        → put_case_0 (sub_dev_if dev_if) place last value first (with_dev sub dev)
          ≡ lifted sub (put_case_0 dev_if place' last value first dev)
    unfolding put_case_0
    put_case_0-lifted last value (inl status) dev inside = refl
    put_case_0-lifted none value (inr c) dev inside = refl
    put_case_0-lifted (some n) value (inr c) dev inside = put_c-lifted off byte 0 inside dev _

    put_bytes-lifted :
        (c : Option (List ℕ)) (dev : D)
        → byte + 0 < sub.size
        → put_bytes (sub_dev_if dev_if) c (byte_at place 0) (with_dev sub dev)
          ≡ lifted sub (put_bytes dev_if c (byte_at place' 0) dev)
    unfolding put_bytes
    put_bytes-lifted none dev inside = refl
    put_bytes-lifted (some c) dev inside = put_c-lifted off byte 0 inside dev c

    put_case-lifted :
        (k : ℕ) (last : Option ℕ) (value c0 : ℕ) (second : ℕ ⊎ ℕ) (dev : D)
        → byte + 0 < sub.size
        → put_case (sub_dev_if dev_if) place k last value c0 second (with_dev sub dev)
          ≡ lifted sub (put_case dev_if place' k last value c0 second dev)
    unfolding put_case
    put_case-lifted k last value c0 (inl status) dev inside = refl
    put_case-lifted k none value c0 (inr c) dev inside = refl
    put_case-lifted k (some n) value c0 (inr c) dev inside = put_bytes-lifted _ dev inside

    put_first-lifted :
        (k : ℕ) (last : Option ℕ) (value : ℕ) (first : ℕ ⊎ ℕ) (dev : D)
        → byte + k < sub.size
        → put_first (sub_dev_if dev_if) place k last value first (with_dev sub dev)
          ≡ lifted sub (put_first dev_if place' k last value first dev)
    unfolding put_first
    put_first-lifted k last value (inl status) dev inside = refl
    put_first-lifted k last value (inr c) dev inside =
        rw (get_c-lifted off byte k inside dev) (put_case-lifted k last value _ _ _ (omega arith))

    write_cases-lifted :
        (k : ℕ) (last : Option ℕ) (endian : Endian) (bits value : ℕ) (dev : D)
        → byte + k < sub.size
        → write_cases (sub_dev_if dev_if) place k last endian bits value (with_dev sub dev)
          ≡ lifted sub (write_cases dev_if place' k last endian bits value dev)
    unfolding write_cases write_case
    write_cases-lifted zero last endian bits value dev inside =
        rw (get_c-lifted off byte 0 inside dev) (put_case_0-lifted last value _ _ inside)
    write_cases-lifted (suc k) last endian bits value dev inside =
        if_lifted sub (ltb 7 k) (abort, dev)
          (write_case dev_if place' (suc k) last (ordered (suc k) endian bits value) dev) refl
          (rw (get_c-lifted off byte 0 (omega arith) dev)
            (put_first-lifted (suc k) last _ _ _ inside))

    write_int_fast-lifted :
        (dev : D) (bits : ℕ) (endian : Endian) (value : ℕ)
        → byte + 0 < sub.size
        → write_int_fast (sub_dev_if dev_if) (with_dev sub dev) byte bits endian value
          ≡ lifted sub (write_int_fast dev_if dev (sub.base + byte) bits endian value)
    unfolding write_int_fast
    write_int_fast-lifted dev bits endian value inside =
        let c = write_bytes_fast bits endian value in
        ap (λ i. put_bytes (sub_dev_if dev_if) c i (with_dev sub dev))
          (let e : byte ≡ byte_at place 0 = omega (arith, ready.small) in e)
        ∙ put_bytes-lifted c dev inside
        ∙ ap (λ i. lifted sub (put_bytes dev_if c i dev))
            (let e : byte_at place' 0 ≡ sub.base + byte = omega (arith, ready.small) in e)

    write_tracks-lifted :
        (dev : D) (bits : ℕ) (endian : Endian) (value slow : ℕ)
        → has_flag (dev_if.get_flags dev) ios_f_read ≡ true
        → byte + bytes_minus1_of place bits < sub.size
        → write_tracks (sub_dev_if dev_if) (with_dev sub dev) place bits endian value slow
          ≡ lifted sub (write_tracks dev_if dev place' bits endian value slow)
    unfolding write_tracks write_int_common sub_dev_if
    write_tracks-lifted dev bits endian value slow base_readable inside =
        if_lifted sub (fast_p place bits)
          (write_int_fast dev_if dev (sub.base + byte) bits endian value)
          (write_int_common dev_if dev place' bits endian slow)
          (write_int_fast-lifted dev bits endian value (omega arith))
          (rw (readable, base_readable)
            (write_cases-lifted (bytes_minus1_of place bits) (last_of place bits) endian bits slow
              dev inside))

-- The space `io` on a device for a range, and its base space.
module _ {D : Type 0} (dev_if : DevIf D) (io : Space (SubDev D)) (base : Space D)
    (same_dev : base.dev ≡ io.dev.base_ios.dev) (ready : IsSub io.dev)
    (readable : has_flag io.dev.flags ios_f_read ≡ true)
    (writable : has_flag io.dev.flags ios_f_write ≡ true)
    (base_readable : has_flag (dev_if.get_flags base.dev) ios_f_read ≡ true)
    (base_writable : has_flag (dev_if.get_flags base.dev) ios_f_write ≡ true) (offset offset' : ℤ)
    (o bits : ℕ) (at_o : offset +ℤ io.bias ≡ pos o)
    (at_o' : offset' +ℤ base.bias ≡ pos (8 * io.dev.base + o)) (some_bits : 0 < bits)
    (inside : o + bits ≤ 8 * io.dev.size) (endian : Endian) where
  -- The space with its mapped values in the range marked.
  abbrev marked : Space (SubDev D)
  marked = ios_mark_dirty_range io (pos o) (pos o +ℤ pos bits)

  marked-on_range :
      (value slow : ℕ)
      → write_marked (sub_dev_if dev_if) io offset bits endian value slow
        ≡ on_range marked (write_marked dev_if base offset' bits endian value slow)
  unfolding write_marked sub_dev_if
  marked-on_range value slow =
      rw
        (writable, base_writable, place_at o _ at_o, place_on io.dev.base o _ at_o', at_o, same_dev)
        (ap (λ (r : WriteResult × SubDev D). (r.0, record marked { dev = r.1 }))
          (write_tracks-lifted dev_if io.dev ready readable writable (o % 8) (o / 8)
            io.dev.base_ios.dev bits endian value slow
            (ap (λ d. has_flag (dev_if.get_flags d) ios_f_read) (sym same_dev) ∙ base_readable)
            (omega arith)))

  -- A readable and writable space on an open range whose end does not wrap writes an unsigned integer
  -- that lies inside the range as its base space, also readable and writable, writes it at that offset
  -- from the base of the range: with the same status, for each positive width and byte order, and the
  -- base device becomes the same. The mapped values that are marked are those of the space itself.
  pub write_uint-on_sub :
      (value : ℕ)
      → write_uint (sub_dev_if dev_if) io offset bits endian value
        ≡ on_range
            (ios_mark_dirty_range io (pos o) (pos o +ℤ pos bits))
            (write_uint dev_if base offset' bits endian value)
  unfolding write_uint
  write_uint-on_sub value = marked-on_range value value

  -- `ios_write_int` does so as well.
  pub write_int-on_sub :
      (value : ℕ)
      → write_int (sub_dev_if dev_if) io offset bits endian value
        ≡ on_range
            (ios_mark_dirty_range io (pos o) (pos o +ℤ pos bits))
            (write_int dev_if base offset' bits endian value)
  unfolding write_int
  write_int-on_sub value = marked-on_range value (uvalue bits value)
