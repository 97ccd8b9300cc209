-- ===== src/Ios/Write/Results.antt =====
-- What `ios_write_uint` and `ios_write_int` (libpoke/ios.c) write.
use native.Mathlib.Nat.{mod-eq_of_lt, mod-lt, one-le-pow, mul-div_cancel}
use native.Mathlib.Decide.{ℕ_discrete}
use poke.Base.{
  ℕ, ◌+◌, ◌-◌, ◌*◌, ◌/◌, ◌%◌, ◌^◌, ◌≤◌, ◌<◌, ◌≡◌, ◌≢◌, inr, refl, ◌∙◌, sym, ap, subst, arith, ◌==◌,
  ◌&&◌, true, false, List, length, pow-add,
}
use poke.Base.Int.{ℤ, pos, ◌+ℤ◌}
use poke.Iod.{DevIf, overlay, has_flag, ios_f_read, ios_f_write}
use poke.Ios.Word.{Endian, shl64}
use poke.Ios.Range.{ios_rangetbl_dirty}
use poke.Ios.Space.{Space, at}
use poke.Ios.Field.{IsBytes}
use poke.Ios.Read.CommonLaws.{bytes_spanned}
use poke.Ios.Write.Bytes.{mul-mod-mul_right}
use poke.Ios.Write.Stored.{Stores}
use poke.Ios.Write.Common.{WriteResult, get_c, put_c, write_int_common, write_int_fast}
use poke.Ios.Write.CommonLaws.{Puts, write_int_common-Puts}
use poke.Ios.Write.FastLaws.{write_int_fast-Puts}
use poke.Ios.Write.Api.{uvalue, write_tracks, write_marked, write_uint, write_int}

-- The shifts of `ios_write_int` keep the low bits.
pub uvalue_lem : (bits value : ℕ) → 0 < bits → bits ≤ 64 → uvalue bits value ≡ value % 2 ^ bits
unfolding uvalue shl64
uvalue_lem bits value some h =
    let k = 64 - bits in
    let pos : 0 < 2 ^ k = one-le-pow k 2 (omega arith) in
    ap (λ x. value * 2 ^ k % x / 2 ^ k)
      (ap (λ (x : ℕ). 2 ^ x) (let e : 64 ≡ bits + k = omega arith in e) ∙ pow-add bits k)
    ∙ ap (λ x. x / 2 ^ k)
        (mul-mod-mul_right (2 ^ k) value (2 ^ bits) pos (one-le-pow bits 2 (omega arith)))
    ∙ mul-div_cancel (value % 2 ^ bits) pos

module _ {D : Type 0} (dev_if : DevIf D) (dev : D) (mem : ℕ → ℕ) (is_bytes : IsBytes mem)
    (endian : Endian) (o bits value slow : ℕ) (some_bits : 0 < bits) (width : bits ≤ 64)
    (low : value % 2 ^ bits ≡ slow) (addresses : o / 8 + bytes_spanned (o % 8) bits < 2 ^ 64)
    (readable : has_flag (dev_if.get_flags dev) ios_f_read ≡ true)
    (gets : (i : ℕ)
      → i < bytes_spanned (o % 8) bits
      → get_c dev_if dev (o / 8 + i) ≡ (inr (mem (o / 8 + i)), dev)) where
  -- Either track writes a buffer that stores the low bits of the value.
  pub write_tracks-Puts :
      Puts dev_if dev mem endian
        (o % 8)
        (o / 8)
        bits
        slow
        (write_tracks dev_if dev (at (o % 8) (o / 8)) bits endian value slow)
  unfolding write_tracks
  write_tracks-Puts = elim (ℕ_discrete (o % 8) 0) [
    | yes e ↦ elim (ℕ_discrete (bits % 8) 0) [
      | yes f ↦ rw (e, f) (fast f)
      | no f ↦
          rw (let g : ((o % 8 == 0) && (bits % 8 == 0)) ≡ false = ground arith in g)
            (common (λ _. f))
    ]
    | no ne ↦
        rw (let g : ((o % 8 == 0) && (bits % 8 == 0)) ≡ false = ground arith in g)
          (common (λ e. absurd (ne e)))
  ]
    where
      common :
          (o % 8 ≡ 0 → bits % 8 ≢ 0)
          → Puts dev_if dev mem endian
              (o % 8)
              (o / 8)
              bits
              slow
              (write_int_common dev_if dev (at (o % 8) (o / 8)) bits endian slow)
      common odd =
          write_int_common-Puts dev_if dev mem is_bytes endian (o % 8) (o / 8) bits slow
            (omega arith) some_bits width
            (rw (sym low) (mod-lt value (one-le-pow bits 2 (omega arith)))) addresses gets odd
            readable

      fast :
          bits % 8 ≡ 0
          → Puts dev_if dev mem endian 0
              (o / 8)
              bits
              slow
              (write_int_fast dev_if dev (o / 8) bits endian value)
      fast f =
          let whole : 8 * (bits / 8) ≡ bits = omega arith in
          subst
            (λ v.
              Puts dev_if dev mem endian 0 (o / 8) bits v
                (write_int_fast dev_if dev (o / 8) bits endian value))
            low
            (subst
              (λ n.
                Puts dev_if dev mem endian 0 (o / 8) n (value % 2 ^ n)
                  (write_int_fast dev_if dev (o / 8) n endian value))
              whole
              (write_int_fast-Puts dev_if dev mem is_bytes endian (o / 8) (bits / 8) value
                (omega arith) (omega arith)))

-- The space once the bits from `o` on are marked dirty, and the device is `dev`.
abbrev pub marked : {D : Type 0} → Space D → (o bits : ℕ) → D → Space D
marked io o bits dev = record io {
  dev = dev;
  dirty = ios_rangetbl_dirty io.ranges (pos o) (pos o +ℤ pos bits) io.dirty;
}

-- A buffer that covers the bytes of the integer `v` and stores it in `mem`, and what writing it at
-- its first byte makes of the space.
pub record Wrote {D : Type 0} (dev_if : DevIf D) (io : Space D) (mem : ℕ → ℕ) (endian : Endian)
    (o bits v : ℕ) (r : WriteResult × Space D) : Type 0 where
  pub buf : List ℕ
  pub result : r.0 ≡ (put_c dev_if io.dev buf (o / 8)).0
  pub space : r.1 ≡ marked io o bits (put_c dev_if io.dev buf (o / 8)).1
  pub len : length buf ≡ bytes_spanned (o % 8) bits
  pub bytes : IsBytes (overlay mem (o / 8) buf)
  pub stores : Stores mem (overlay mem (o / 8) buf) endian o bits v

module _ {D : Type 0} (dev_if : DevIf D) (io : Space D) (mem : ℕ → ℕ) (is_bytes : IsBytes mem)
    (endian : Endian) (offset : ℤ) (o bits : ℕ) (some_bits : 0 < bits) (width : bits ≤ 64)
    (place : offset +ℤ io.bias ≡ pos o) (addresses : o / 8 + bytes_spanned (o % 8) bits < 2 ^ 64)
    (readable : has_flag (dev_if.get_flags io.dev) ios_f_read ≡ true)
    (writable : has_flag (dev_if.get_flags io.dev) ios_f_write ≡ true)
    (gets : (i : ℕ)
      → i < bytes_spanned (o % 8) bits
      → get_c dev_if io.dev (o / 8 + i) ≡ (inr (mem (o / 8 + i)), io.dev)) where
  write_marked-Wrote :
      (value slow : ℕ)
      → value % 2 ^ bits ≡ slow
      → Wrote dev_if io mem endian o bits slow
          (write_marked dev_if io offset bits endian value slow)
  unfolding write_marked
  write_marked-Wrote value slow low =
      let p =
        write_tracks-Puts dev_if io.dev mem is_bytes endian o bits value slow some_bits width low
          addresses readable gets in
      rw (writable, place)
        (record {
          buf = p.buf;
          result = ap (λ (r : WriteResult × D). r.0) p.does;
          space = ap (λ (r : WriteResult × D). marked io o bits r.1) p.does;
          len = p.len;
          bytes = p.bytes;
          stores =
              subst (λ at. Stores mem (overlay mem (o / 8) p.buf) endian at bits slow)
                (let e : 8 * (o / 8) + o % 8 ≡ o = omega arith in e) p.stores;
        })

  -- On a space that is readable and writable, whose device holds `mem` where the integer lies and
  -- gives its bytes without changing, `ios_write_uint` of a value of `bits` bits marks the range
  -- dirty and writes, at the first byte of the integer, a buffer that covers exactly its bytes: over
  -- `mem` it stores the value at the biased offset and changes no other bit, for each width from 1 to
  -- 64 and byte order. The result is the status of that write.
  pub write_uint-Wrote :
      (value : ℕ)
      → value < 2 ^ bits
      → Wrote dev_if io mem endian o bits value (write_uint dev_if io offset bits endian value)
  unfolding write_uint
  write_uint-Wrote value fits = write_marked-Wrote value value (mod-eq_of_lt fits)

  -- On such a space `ios_write_int` of any 64-bit pattern does the same with the low `bits` bits of
  -- the pattern.
  pub write_int-Wrote :
      (value : ℕ)
      → Wrote dev_if io mem endian o bits
          (value % 2 ^ bits)
          (write_int dev_if io offset bits endian value)
  unfolding write_int
  write_int-Wrote value =
      rw (uvalue_lem bits value some_bits width) (write_marked-Wrote value (value % 2 ^ bits) refl)
