-- ===== src/Ios/Through/OnMem.antt =====
-- Writing through a range (libpoke/ios-dev-sub.c) of a memory device, and reading it back.
use poke.Base.{
  ℕ, ◌+◌, ◌*◌, ◌^◌, ◌≤◌, ◌<◌, ◌≡◌, ◌⊎◌, inl, inr, refl, sym, ◌∙◌, ap, subst, arith, Bool, true,
}
use poke.Base.Int.{ℤ, pos, ◌+ℤ◌}
use poke.Iod.{ios_ok, ios_f_read, ios_f_write, has_flag}
use poke.Iod.Mem.{MemDev, mem_dev_if}
use poke.Iod.Mem.Laws.{contents}
use poke.Iod.Sub.{SubDev, sub_dev_if}
use poke.Ios.Word.{Endian}
use poke.Ios.Space.{Space}
use poke.Ios.Field.{bit_at, int_at}
use poke.Ios.Read.Common.{ok}
use poke.Ios.Read.Api.{read_uint}
use poke.Ios.Write.Common.{WriteResult, done}
use poke.Ios.Write.Api.{ios_mark_dirty_range, write_uint}
use poke.Ios.Write.OnMem.{Ready, Stored, write_uint_on_mem}
use poke.Ios.Write.RoundTrip.{read-write_uint}
use poke.Ios.Through.{IsSub, on_range}
use poke.Ios.Through.Reads.{read_uint-on_sub}
use poke.Ios.Through.Writes.{write_uint-on_sub}

add_pos_zero : (n : ℕ) → pos n +ℤ pos 0 ≡ pos n
unfolding ◌+ℤ◌
add_pos_zero n = ground arith

-- A space on the device of the base space, with no bias.
abbrev pub base_space : Space (SubDev MemDev) → Space MemDev
base_space io = record {
  dev = io.dev.base_ios.dev;
  bias = pos 0;
  ranges = io.ranges;
  dirty = io.dirty;
}

-- The bits of the base device.
abbrev pub base_contents : Space (SubDev MemDev) → ℕ → ℕ
base_contents io = contents io.dev.base_ios.dev

-- The integer lies in the range, which a readable and writable space stands on, and the memory device
-- is as the writes want it.
pub record InRange (io : Space (SubDev MemDev)) (offset : ℤ) (o bits : ℕ) : Type 0 where
  pub sub : IsSub io.dev
  pub readable : has_flag io.dev.flags ios_f_read ≡ true
  pub writable : has_flag io.dev.flags ios_f_write ≡ true
  pub place : offset +ℤ io.bias ≡ pos o
  pub inside : o + bits ≤ 8 * io.dev.size
  pub ready : Ready (base_space io) (8 * io.dev.base + o) bits

module _ (reallocated : ℕ → Bool) (bounded : (n : ℕ) → reallocated n ≡ true → n < 2 ^ 63)
    (io : Space (SubDev MemDev)) (endian : Endian) (offset : ℤ) (o bits : ℕ)
    (range : InRange io offset o bits) (value : ℕ) (fits : value < 2 ^ bits) where
  abbrev bit : ℕ
  bit = 8 * io.dev.base + o

  -- The write on the base space.
  abbrev below : WriteResult × Space MemDev
  below = write_uint (mem_dev_if reallocated) (base_space io) (pos bit) bits endian value

  abbrev marked : Space (SubDev MemDev)
  marked = ios_mark_dirty_range io (pos o) (pos o +ℤ pos bits)

  through :
      write_uint (sub_dev_if (mem_dev_if reallocated)) io offset bits endian value
      ≡ on_range marked below
  unfolding mem_dev_if
  through =
      write_uint-on_sub (mem_dev_if reallocated) io (base_space io) refl range.sub range.readable
        range.writable range.ready.readable range.ready.writable offset (pos bit) o bits range.place
        (add_pos_zero bit) range.ready.some_bits range.inside endian value

  stored :
      (write_uint (sub_dev_if (mem_dev_if reallocated)) io offset bits endian value).0 ≡ done ios_ok
      → Stored (base_space io) below.1 endian bit bits value
  stored wrote =
      (write_uint_on_mem reallocated bounded (base_space io) endian (pos bit) bit bits range.ready
          (add_pos_zero bit) value fits).0
        (ap (λ (r : WriteResult × Space (SubDev MemDev)). r.0) (sym through) ∙ wrote)

  -- On a range of a valid memory device of bytes, with both readable and writable, an unsigned write
  -- inside the range that returns IOS_OK puts the value at the offset from the base of the range, and
  -- leaves each bit of the device that is outside the range as it was.
  pub write_uint_in_range :
      (write_uint (sub_dev_if (mem_dev_if reallocated)) io offset bits endian value).0 ≡ done ios_ok
      → (int_at
            (base_contents
              (write_uint (sub_dev_if (mem_dev_if reallocated)) io offset bits endian value).1)
            endian
            (8 * io.dev.base + o)
            bits
          ≡ value)
        × ((p : ℕ)
            → (p < 8 * io.dev.base) ⊎ (8 * (io.dev.base + io.dev.size) ≤ p)
            → bit_at
                (base_contents
                  (write_uint (sub_dev_if (mem_dev_if reallocated)) io offset bits endian value).1)
                p
              ≡ bit_at (base_contents io) p)
  write_uint_in_range wrote =
      let s = (stored wrote).stores in
      let same = ap (λ (r : WriteResult × Space (SubDev MemDev)). base_contents r.1) through in
      (
        ap (λ m. int_at m endian bit bits) same ∙ s.holds,
        λ p outside.
            ap (λ m. bit_at m p) same
            ∙ s.keeps p (elim outside [
              | inl h ↦ inl (omega arith)
              | inr h ↦ inr (omega (arith, range.inside))
            ]),
      )

  reads_below :
      (write_uint (sub_dev_if (mem_dev_if reallocated)) io offset bits endian value).0 ≡ done ios_ok
      → read_uint (sub_dev_if (mem_dev_if reallocated)) (on_range marked below).1 offset bits endian
        ≡ (ok value, (on_range marked below).1)
  unfolding mem_dev_if
  reads_below wrote =
      let s = stored wrote in
      let below_ok = ap (λ (r : WriteResult × Space (SubDev MemDev)). r.0) (sym through) ∙ wrote in
      let io' = (on_range marked below).1 in
      let at_bit : pos bit +ℤ below.1.bias ≡ pos bit =
        ap (λ b. pos bit +ℤ b) s.bias ∙ add_pos_zero bit in
      read_uint-on_sub (mem_dev_if reallocated) io' below.1 refl
        (record { there = range.sub.there; small = range.sub.small }) range.readable
        s.ready.readable offset (pos bit) o range.place at_bit
        (omega (arith, range.inside, range.ready.some_bits)) bits endian
      ∙ ap (on_range io') (
          read-write_uint reallocated bounded (base_space io) endian (pos bit) bit bits range.ready
            (add_pos_zero bit) value fits below_ok)

  -- What the range holds is then read back through it.
  pub read-write_in_range :
      (write_uint (sub_dev_if (mem_dev_if reallocated)) io offset bits endian value).0 ≡ done ios_ok
      → read_uint
          (sub_dev_if (mem_dev_if reallocated))
          (write_uint (sub_dev_if (mem_dev_if reallocated)) io offset bits endian value).1
          offset
          bits
          endian
        ≡ (
          ok value,
          (write_uint (sub_dev_if (mem_dev_if reallocated)) io offset bits endian value).1,
        )
  read-write_in_range wrote =
      subst
        (λ (r : WriteResult × Space (SubDev MemDev)).
          read_uint (sub_dev_if (mem_dev_if reallocated)) r.1 offset bits endian ≡ (ok value, r.1))
        (sym through) (reads_below wrote)
