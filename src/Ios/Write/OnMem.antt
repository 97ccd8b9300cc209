-- ===== src/Ios/Write/OnMem.antt =====
-- `ios_write_uint` and `ios_write_int` (libpoke/ios.c) on the memory device (libpoke/ios-dev-mem.c),
-- and reading back what they wrote.
use native.Mathlib.Decide.{dec_le, ℕ_discrete}
use poke.Base.{
  ℕ, ◌+◌, ◌/◌, ◌%◌, ◌^◌, ◌≤◌, ◌<◌, ◌≡◌, ◌≢◌, inr, refl, ◌∙◌, sym, ap, subst, arith, Bool, true,
  false, leb, ◌==◌, if◌then◌else◌, List, length, get_or_out,
}
use poke.Base.Int.{ℤ, pos, ◌+ℤ◌}
use mathlib.Core.Path.{fun_ext}
use poke.Iod.{DevIf, iod_ok, ios_ok, ios_f_read, ios_f_write, has_flag, bytes_at, overlay}
use poke.Iod.Mem.{MemDev, mem_dev_if, pwrite}
use poke.Iod.Mem.Laws.{
  IsValid, contents, pread_lem, pwrite-Written, pwrite_flags, pwrite_inside, pwrite_refused,
}
use poke.Ios.Word.{Endian}
use poke.Ios.Space.{Space}
use poke.Ios.Field.{IsBytes}
use poke.Ios.Read.CommonLaws.{bytes_spanned}
use poke.Ios.Write.Stored.{Stores}
use poke.Ios.Write.Common.{WriteResult, done, abort, get_c, put_c}
use poke.Ios.Write.Results.{Wrote, write_uint-Wrote, write_int-Wrote}
use poke.Ios.Write.Api.{write_uint, write_int}

abbrev status_of : WriteResult → ℕ
status_of (done status) = status
status_of abort = 0

-- A write returns IOS_OK only after IOD_OK.
status_ok : (ret : ℕ) → (if ret == iod_ok then done ios_ok else done ret) ≡ done ios_ok → ret ≡ 0
status_ok ret h = elim (ℕ_discrete ret 0) [
  | yes e ↦ e
  | no ne ↦
      let test : (ret == iod_ok) ≡ false = ground arith in absurd (ne (ap status_of (rw test at h)))
]

module _ (reallocated : ℕ → Bool) where
  -- A byte past the end reads as 0, which is what the device is there.
  get_c_on_mem :
      (mio : MemDev) (i : ℕ)
      → IsValid mio
      → i + 1 < 2 ^ 64
      → get_c (mem_dev_if reallocated) mio i ≡ (inr (contents mio i), mio)
  unfolding get_c mem_dev_if bytes_at
  get_c_on_mem mio i valid small = elim (dec_le (i + 1) mio.size) [
    | yes h ↦
        rw (pread_lem mio 1 i valid small, let e : leb (i + 1) mio.size ≡ true = ground arith in e)
    | no h ↦
        rw (pread_lem mio 1 i valid small, let e : leb (i + 1) mio.size ≡ false = ground arith in e)
          (ap (λ b. (inr b, mio)) (sym (get_or_out mio.pointer i 0 (omega (arith, valid.block)))))
  ]

  put_c_ok :
      (mio : MemDev) (buf : List ℕ) (off : ℕ)
      → (put_c (mem_dev_if reallocated) mio buf off).0 ≡ done ios_ok
      → pwrite reallocated mio buf off ≡ (iod_ok, (put_c (mem_dev_if reallocated) mio buf off).1)
  unfolding put_c mem_dev_if
  put_c_ok mio buf off h =
      let r = pwrite reallocated mio buf off in ap (λ (status : ℕ). (status, r.1)) (status_ok r.0 h)

-- A space on a valid memory device that holds bytes, with an integer inside the 2 ^ 63 first bits.
pub record Ready (io : Space MemDev) (o bits : ℕ) : Type 0 where
  pub valid : IsValid io.dev
  pub bytes : IsBytes (contents io.dev)
  pub readable : has_flag io.dev.flags ios_f_read ≡ true
  pub writable : has_flag io.dev.flags ios_f_write ≡ true
  pub small : o < 2 ^ 63
  pub some_bits : 0 < bits
  pub width : bits ≤ 64

-- What a write of `v` that succeeds makes of the space.
pub record Stored (io io' : Space MemDev) (endian : Endian) (o bits v : ℕ) : Type 0 where
  pub ready : Ready io' o bits
  pub inside : o / 8 + bytes_spanned (o % 8) bits ≤ io'.dev.size
  pub bias : io'.bias ≡ io.bias
  pub larger : io.dev.size ≤ io'.dev.size
  pub stores : Stores (contents io.dev) (contents io'.dev) endian o bits v

-- A `realloc` that succeeds returns an object, which has fewer than 2 ^ 63 bytes.
module _ (reallocated : ℕ → Bool) (bounded : (n : ℕ) → reallocated n ≡ true → n < 2 ^ 63)
    (io : Space MemDev) (endian : Endian) (offset : ℤ) (o bits : ℕ) (ready : Ready io o bits)
    (place : offset +ℤ io.bias ≡ pos o) where
  abbrev dev_if : DevIf MemDev
  dev_if = mem_dev_if reallocated

  gets :
      (i : ℕ)
      → i < bytes_spanned (o % 8) bits
      → get_c dev_if io.dev (o / 8 + i) ≡ (inr (contents io.dev (o / 8 + i)), io.dev)
  gets i h =
      get_c_on_mem reallocated io.dev (o / 8 + i) ready.valid
        (omega (arith, ready.small, ready.width))

  Wrote-Stored :
      (v : ℕ) (r : WriteResult × Space MemDev)
      → Wrote dev_if io (contents io.dev) endian o bits v r
      → r.0 ≡ done ios_ok
      → Stored io r.1 endian o bits v
  Wrote-Stored v r w h =
      let dev' = (put_c dev_if io.dev w.buf (o / 8)).1 in
      let wrote = put_c_ok reallocated io.dev w.buf (o / 8) (sym w.result ∙ h) in
      let fits : o / 8 + length w.buf < 2 ^ 64 = omega (arith, w.len, ready.small, ready.width) in
      let written = pwrite-Written reallocated bounded w.buf (o / 8) fits ready.valid wrote in
      let same : contents dev' ≡ overlay (contents io.dev) (o / 8) w.buf = fun_ext written.3 in
      let flags : dev'.flags ≡ io.dev.flags =
        ap (λ (p : ℕ × MemDev). p.1.flags) (sym wrote)
        ∙ pwrite_flags reallocated io.dev w.buf (o / 8) in
      subst (λ s. Stored io s endian o bits v) (sym w.space)
        (record {
          ready = record {
            valid = written.0;
            bytes = subst IsBytes (sym same) w.bytes;
            readable = rw flags ready.readable;
            writable = rw flags ready.writable;
            small = ready.small;
            some_bits = ready.some_bits;
            width = ready.width;
          };
          inside = rw (sym w.len) written.2;
          bias = refl;
          larger = written.1;
          stores = subst (λ m. Stores (contents io.dev) m endian o bits v) (sym same) w.stores;
        })

  uint-Wrote :
      (value : ℕ)
      → value < 2 ^ bits
      → Wrote dev_if io
          (contents io.dev)
          endian
          o
          bits
          value
          (write_uint dev_if io offset bits endian value)
  unfolding mem_dev_if
  uint-Wrote value fits =
      write_uint-Wrote dev_if io (contents io.dev) ready.bytes endian offset o bits ready.some_bits
        ready.width place (omega (arith, ready.small, ready.width)) ready.readable ready.writable
        gets value fits

  int-Wrote :
      (value : ℕ)
      → Wrote dev_if io
          (contents io.dev)
          endian
          o
          bits
          (value % 2 ^ bits)
          (write_int dev_if io offset bits endian value)
  unfolding mem_dev_if
  int-Wrote value =
      write_int-Wrote dev_if io (contents io.dev) ready.bytes endian offset o bits ready.some_bits
        ready.width place (omega (arith, ready.small, ready.width)) ready.readable ready.writable
        gets value

  Wrote-inside :
      (v : ℕ) (r : WriteResult × Space MemDev)
      → o / 8 + bytes_spanned (o % 8) bits ≤ io.dev.size
      → Wrote dev_if io (contents io.dev) endian o bits v r
      → r.0 ≡ done ios_ok
  unfolding put_c mem_dev_if
  Wrote-inside v r h w =
      w.result ∙ rw (pwrite_inside reallocated io.dev w.buf (o / 8) ready.valid (rw w.len h))

  Wrote-refused :
      (v : ℕ) (r : WriteResult × Space MemDev)
      → Wrote dev_if io (contents io.dev) endian o bits v r
      → r.0 ≢ done ios_ok
      → r.1.dev ≡ io.dev
  unfolding put_c mem_dev_if
  Wrote-refused v r w bad =
      ap (λ (s : Space MemDev). s.dev) w.space
      ∙ pwrite_refused reallocated io.dev w.buf (o / 8) (λ e. bad (w.result ∙ rw e))

  -- On a valid memory device of bytes that is readable and writable, an unsigned write that returns
  -- IOS_OK leaves such a device, no smaller and with the whole integer inside, that holds the value
  -- at the biased offset and has each other bit as it was; one that returns anything else leaves the
  -- device as it was; and one inside the device returns IOS_OK.
  pub write_uint_on_mem :
      (value : ℕ)
      → value < 2 ^ bits
      → ((write_uint dev_if io offset bits endian value).0 ≡ done ios_ok
          → Stored io (write_uint dev_if io offset bits endian value).1 endian o bits value)
        × ((write_uint dev_if io offset bits endian value).0 ≢ done ios_ok
            → (write_uint dev_if io offset bits endian value).1.dev ≡ io.dev)
        × (o / 8 + bytes_spanned (o % 8) bits ≤ io.dev.size
            → (write_uint dev_if io offset bits endian value).0 ≡ done ios_ok)
  write_uint_on_mem value fits =
      let w = uint-Wrote value fits in
      (Wrote-Stored value _ w, Wrote-refused value _ w, λ h. Wrote-inside value _ h w)

  -- On such a device a signed write of any 64-bit pattern does the same with its low `bits` bits.
  pub write_int_on_mem :
      (value : ℕ)
      → ((write_int dev_if io offset bits endian value).0 ≡ done ios_ok
          → Stored io
              (write_int dev_if io offset bits endian value).1
              endian
              o
              bits
              (value % 2 ^ bits))
        × ((write_int dev_if io offset bits endian value).0 ≢ done ios_ok
            → (write_int dev_if io offset bits endian value).1.dev ≡ io.dev)
        × (o / 8 + bytes_spanned (o % 8) bits ≤ io.dev.size
            → (write_int dev_if io offset bits endian value).0 ≡ done ios_ok)
  write_int_on_mem value =
      let w = int-Wrote value in
      let v = value % 2 ^ bits in
      (Wrote-Stored v _ w, Wrote-refused v _ w, λ h. Wrote-inside v _ h w)
