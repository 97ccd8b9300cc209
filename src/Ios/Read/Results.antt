-- ===== src/Ios/Read/Results.antt =====
-- What `ios_read_uint` and `ios_read_int` return.
use native.Mathlib.Nat.{add-zero}
use native.Mathlib.Decide.{ℕ_discrete}
use poke.Base.{
  ℕ, zero, suc, ◌+◌, ◌*◌, ◌/◌, ◌%◌, ◌≤◌, ◌<◌, ◌≡◌, ◌≢◌, ◌∙◌, sym, get_or, ap, ap₂, ◌^◌, arith, ◌==◌,
  true, false, List, some, Option,
}
use poke.Base.Int.{ℤ, pos, ◌+ℤ◌}
use poke.Iod.{DevIf, iod_ok, ios_f_read, has_flag, bytes_at, get_or-bytes_at}
use poke.Ios.Word.{Endian, lsb, msb}
use poke.Ios.Space.{Space, at}
use poke.Ios.Field.{IsBytes, int_at, int_at-lt, field_lsb, twos, field_whole}
use poke.Ios.Read.Common.{ReadResult, ok, read_int_common}
use poke.Ios.Read.CommonLaws.{bytes_spanned, read_int_common-int_at}
use poke.Ios.Read.Fast.{read_uint_fast, read_int_fast, sign_extend}
use poke.Ios.Read.FastLaws
use poke.Ios.Read.FastLaws.{HoldsBytes}
use poke.Ios.Read.Sign.{sign_extend-twos, int8-twos}
use poke.Ios.Read.Api.{fast_track, tracks, read_uint, read_int, read_int_slow}

module _ (mem : ℕ → ℕ) (bytes : IsBytes mem) (a : ℕ) (c : List ℕ) where
  byte_lem :
      (endian : Endian) → get_or c 0 0 ≡ mem (a + 0) → get_or c 0 0 ≡ int_at mem endian (8 * a) 8
  unfolding int_at field_lsb
  byte_lem msb held = held ∙ ap mem (add-zero a) ∙ sym (field_whole mem bytes a)
  byte_lem lsb held = held ∙ ap mem (add-zero a) ∙ sym (field_whole mem bytes a)

  uint_fast :
      (m : ℕ) (endian : Endian)
      → 0 < m
      → m ≤ 8
      → HoldsBytes mem a c m
      → read_uint_fast (8 * m) endian c ≡ some (int_at mem endian (8 * a) (8 * m))
  unfolding read_uint_fast
  uint_fast zero endian h width held = absurd (omega arith)
  uint_fast (suc zero) endian h width held = ap some (byte_lem endian (held 0 (omega arith)))
  uint_fast (suc (suc zero)) endian h width held =
      ap some (FastLaws.uint_16_lem mem bytes a c endian held)
  uint_fast (suc (suc (suc zero))) endian h width held =
      ap some (FastLaws.uint_24_lem mem bytes a c endian held)
  uint_fast (suc (suc (suc (suc zero)))) endian h width held =
      ap some (FastLaws.uint_32_lem mem bytes a c endian held)
  uint_fast (suc (suc (suc (suc (suc zero))))) endian h width held =
      ap some (FastLaws.uint_40_lem mem bytes a c endian held)
  uint_fast (suc (suc (suc (suc (suc (suc zero)))))) endian h width held =
      ap some (FastLaws.uint_48_lem mem bytes a c endian held)
  uint_fast (suc (suc (suc (suc (suc (suc (suc zero))))))) endian h width held =
      ap some (FastLaws.uint_56_lem mem bytes a c endian held)
  uint_fast (suc (suc (suc (suc (suc (suc (suc (suc zero)))))))) endian h width held =
      ap some (FastLaws.uint_64_lem mem bytes a c endian held)
  uint_fast (suc (suc (suc (suc (suc (suc (suc (suc (suc n))))))))) endian h width held =
      absurd (omega arith)

  -- At 64 bits the sign is in place.
  whole_word :
      (endian : Endian) → int_at mem endian (8 * a) 64 ≡ twos 64 (int_at mem endian (8 * a) 64)
  whole_word endian = ground arith

  int_fast :
      (m : ℕ) (endian : Endian)
      → 0 < m
      → m ≤ 8
      → HoldsBytes mem a c m
      → read_int_fast (8 * m) endian c ≡ some (twos (8 * m) (int_at mem endian (8 * a) (8 * m)))
  unfolding read_int_fast
  int_fast zero endian h width held = absurd (omega arith)
  int_fast (suc zero) endian h width held =
      ap some (int8-twos (get_or c 0 0) ∙ ap (twos 8) (byte_lem endian (held 0 (omega arith))))
  int_fast (suc (suc zero)) endian h width held = ap some (
      ap (λ x. sign_extend x 48) (FastLaws.int_16_lem mem bytes a c endian held)
      ∙ sign_extend-twos 16 (int_at mem endian (8 * a) 16) (omega arith) (omega arith)
          (int_at-lt mem endian (8 * a) 16 (omega arith)))
  int_fast (suc (suc (suc zero))) endian h width held = ap some (
      ap (λ x. sign_extend x 40) (FastLaws.int_24_lem mem bytes a c endian held)
      ∙ sign_extend-twos 24 (int_at mem endian (8 * a) 24) (omega arith) (omega arith)
          (int_at-lt mem endian (8 * a) 24 (omega arith)))
  int_fast (suc (suc (suc (suc zero)))) endian h width held = ap some (
      ap (λ x. sign_extend x 32) (FastLaws.int_32_lem mem bytes a c endian held)
      ∙ sign_extend-twos 32 (int_at mem endian (8 * a) 32) (omega arith) (omega arith)
          (int_at-lt mem endian (8 * a) 32 (omega arith)))
  int_fast (suc (suc (suc (suc (suc zero))))) endian h width held = ap some (
      ap (λ x. sign_extend x 24) (FastLaws.int_40_lem mem bytes a c endian held)
      ∙ sign_extend-twos 40 (int_at mem endian (8 * a) 40) (omega arith) (omega arith)
          (int_at-lt mem endian (8 * a) 40 (omega arith)))
  int_fast (suc (suc (suc (suc (suc (suc zero)))))) endian h width held = ap some (
      ap (λ x. sign_extend x 16) (FastLaws.int_48_lem mem bytes a c endian held)
      ∙ sign_extend-twos 48 (int_at mem endian (8 * a) 48) (omega arith) (omega arith)
          (int_at-lt mem endian (8 * a) 48 (omega arith)))
  int_fast (suc (suc (suc (suc (suc (suc (suc zero))))))) endian h width held = ap some (
      ap (λ x. sign_extend x 8) (FastLaws.int_56_lem mem bytes a c endian held)
      ∙ sign_extend-twos 56 (int_at mem endian (8 * a) 56) (omega arith) (omega arith)
          (int_at-lt mem endian (8 * a) 56 (omega arith)))
  int_fast (suc (suc (suc (suc (suc (suc (suc (suc zero)))))))) endian h width held =
      ap some (FastLaws.int_64_lem mem bytes a c endian held ∙ whole_word endian)
  int_fast (suc (suc (suc (suc (suc (suc (suc (suc (suc n))))))))) endian h width held =
      absurd (omega arith)

module _ {D : Type 0} (dev_if : DevIf D) where
  fast_track-stores :
      (switch : List ℕ → Option ℕ) (slow : D → ReadResult × D) (dev dev' : D) (byte bits v : ℕ)
      (c : List ℕ)
      → bits ≤ 64
      → dev_if.pread dev (bits / 8) byte ≡ (iod_ok, c, dev')
      → switch c ≡ some v
      → fast_track dev_if switch slow dev byte bits ≡ (ok v, dev')
  unfolding fast_track
  fast_track-stores switch slow dev dev' byte bits v c width reads stored =
      rw (reads, stored) (ground arith)

  pub tracks-at :
      (switch : List ℕ → Option ℕ) (slow : D → ReadResult × D) (dev : D) (off byte bits : ℕ)
      {r : ReadResult × D}
      → (off ≡ 0 → bits % 8 ≡ 0 → fast_track dev_if switch slow dev byte bits ≡ r)
      → ((off ≡ 0 → bits % 8 ≢ 0) → slow dev ≡ r)
      → tracks dev_if switch slow dev (at off byte) bits ≡ r
  unfolding tracks
  tracks-at switch slow dev off byte bits {r} fast rest = elim (ℕ_discrete off 0) [
    | yes e ↦ elim (ℕ_discrete (bits % 8) 0) [
      | yes f ↦ rw (e, f) (fast e f)
      | no f ↦ rw (e, let g : (bits % 8 == 0) ≡ false = ground arith in g) (rest (λ _. f))
    ]
    | no ne ↦ rw (let g : (off == 0) ≡ false = ground arith in g) (rest (λ e. absurd (ne e)))
  ]

module _ {D : Type 0} (dev_if : DevIf D) (mem : ℕ → ℕ) (bytes : IsBytes mem) (io : Space D)
    (dev' : D) (offset : ℤ) (o bits : ℕ) (endian : Endian) (some_bits : 0 < bits)
    (width : bits ≤ 64) (place : offset +ℤ io.bias ≡ pos o)
    (readable : has_flag (dev_if.get_flags io.dev) ios_f_read ≡ true)
    (reads : dev_if.pread io.dev (bytes_spanned (o % 8) bits) (o / 8)
      ≡ (iod_ok, bytes_at mem (o / 8) (bytes_spanned (o % 8) bits), dev')) where
  abbrev value : ℕ
  value = int_at mem endian o bits

  value-lt : value < 2 ^ bits
  value-lt = int_at-lt mem endian o bits some_bits

  aligned : o % 8 ≡ 0 → bits % 8 ≡ 0 → value ≡ int_at mem endian (8 * (o / 8)) (8 * (bits / 8))
  aligned e f =
      ap₂ (int_at mem endian) (let g : o ≡ 8 * (o / 8) = omega arith in g)
        (let g : bits ≡ 8 * (bits / 8) = omega arith in g)

  reads_fast :
      o % 8 ≡ 0
      → bits % 8 ≡ 0
      → dev_if.pread io.dev (bits / 8) (o / 8) ≡ (iod_ok, bytes_at mem (o / 8) (bits / 8), dev')
  reads_fast e f = rw (let g : bits / 8 ≡ bytes_spanned (o % 8) bits = omega arith in g) reads

  common :
      (o % 8 ≡ 0 → bits % 8 ≢ 0)
      → read_int_common dev_if io.dev (at (o % 8) (o / 8)) bits endian ≡ (ok value, dev')
  common odd =
      read_int_common-int_at dev_if mem bytes io.dev dev' (o % 8) (o / 8) bits endian (omega arith)
        some_bits width odd reads
      ∙ ap (λ p. (ok (int_at mem endian p bits), dev'))
          (let g : 8 * (o / 8) + o % 8 ≡ o = omega arith in g)

  -- A readable space whose device reads the bytes that the integer lies in stores the unsigned
  -- integer of `bits` bits at the biased offset, for each width from 1 to 64 and byte order.
  pub read_uint-int_at :
      read_uint dev_if io offset bits endian
      ≡ (ok (int_at mem endian o bits), record io { dev = dev' })
  unfolding read_uint
  read_uint-int_at =
      let both =
        tracks-at dev_if (read_uint_fast bits endian)
          (λ dev. read_int_common dev_if dev (at (o % 8) (o / 8)) bits endian) io.dev (o % 8)
          (o / 8) bits {r = (ok value, dev')}
          (λ e f.
            fast_track-stores dev_if _ _ io.dev dev' (o / 8) bits value _ width (reads_fast e f) (
              ap (λ n. read_uint_fast n endian (bytes_at mem (o / 8) (bits / 8)))
                (let g : bits ≡ 8 * (bits / 8) = omega arith in g)
              ∙ uint_fast mem bytes (o / 8) _ (bits / 8) endian (omega arith) (omega arith)
                  (get_or-bytes_at mem (o / 8) (bits / 8))
              ∙ sym (ap some (aligned e f))))
          common in
      rw (readable, place, both)

  -- On such a space `ios_read_int` stores, for each width from 1 to 64 and byte order, the 64-bit
  -- pattern of the integer that those bits are in two's complement.
  pub read_int-int_at :
      read_int dev_if io offset bits endian
      ≡ (ok (twos bits (int_at mem endian o bits)), record io { dev = dev' })
  unfolding read_int read_int_slow
  read_int-int_at =
      let both =
        tracks-at dev_if (read_int_fast bits endian)
          (read_int_slow dev_if (at (o % 8) (o / 8)) bits endian) io.dev (o % 8) (o / 8) bits
          {r = (ok (twos bits value), dev')}
          (λ e f.
            fast_track-stores dev_if _ _ io.dev dev' (o / 8) bits (twos bits value) _ width
              (reads_fast e f)
              (ap (λ n. read_int_fast n endian (bytes_at mem (o / 8) (bits / 8)))
                  (let g : bits ≡ 8 * (bits / 8) = omega arith in g)
                ∙ int_fast mem bytes (o / 8) _ (bits / 8) endian (omega arith) (omega arith)
                    (get_or-bytes_at mem (o / 8) (bits / 8))
                ∙ ap some (
                    ap₂ twos (let g : 8 * (bits / 8) ≡ bits = omega arith in g)
                      (sym (aligned e f)))))
          (λ odd.
            rw (common odd)
              (ap (λ x. (ok x, dev')) (sign_extend-twos bits value some_bits width value-lt))) in
      rw (readable, place, both)
