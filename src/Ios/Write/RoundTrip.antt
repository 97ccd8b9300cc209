-- ===== src/Ios/Write/RoundTrip.antt =====
-- Reading back what `ios_write_uint` and `ios_write_int` (libpoke/ios.c) wrote to a memory device.
use native.Mathlib.Nat.{mod-eq_of_lt, one-le-pow, add-mul-mod_self_right}
use poke.Base.{
  ℕ, ◌*◌, ◌⊎◌, inl, inr, pow-add, lt→ltb, false, ◌+◌, ◌-◌, ◌/◌, ◌%◌, ◌^◌, ◌≤◌, ◌<◌, ◌≡◌, ◌∙◌, ap,
  arith, Bool, true, leb, ltb,
}
use poke.Base.Int.{ℤ, pos, ◌+ℤ◌}
use poke.Iod.{ios_ok}
use poke.Iod.Mem.{MemDev, mem_dev_if}
use poke.Ios.Word.{Endian}
use poke.Ios.Space.{Space}
use poke.Ios.Field.{twos}
use poke.Ios.Read.Common.{ok}
use poke.Ios.Read.CommonLaws.{bytes_spanned}
use poke.Ios.Read.Api.{read_uint, read_int}
use poke.Ios.Read.OnMem.{read_uint_on_mem, read_int_on_mem}
use poke.Ios.Write.Common.{done}
use poke.Ios.Write.Api.{write_uint, write_int}
use poke.Ios.Write.OnMem.{Ready, Stored, write_uint_on_mem, write_int_on_mem}

module _ (reallocated : ℕ → Bool) (io io' : Space MemDev) (endian : Endian) (offset : ℤ)
    (o bits v : ℕ) (place : offset +ℤ io.bias ≡ pos o) (s : Stored io io' endian o bits v) where
  place' : offset +ℤ io'.bias ≡ pos o
  place' = rw s.bias place

  read_uint-Stored : read_uint (mem_dev_if reallocated) io' offset bits endian ≡ (ok v, io')
  read_uint-Stored =
      read_uint_on_mem reallocated io' s.ready.valid s.ready.bytes offset o bits endian
        s.ready.some_bits s.ready.width place' s.ready.small s.ready.readable
      ∙ rw
          (let e : leb (o / 8 + bytes_spanned (o % 8) bits) io'.dev.size ≡ true =
              ground (arith, s.inside) in
            e)
          (ap (λ x. (ok x, io')) s.stores.holds)

  read_int-Stored :
      read_int (mem_dev_if reallocated) io' offset bits endian ≡ (ok (twos bits v), io')
  read_int-Stored =
      read_int_on_mem reallocated io' s.ready.valid s.ready.bytes offset o bits endian
        s.ready.some_bits s.ready.width place' s.ready.small s.ready.readable
      ∙ rw
          (let e : leb (o / 8 + bytes_spanned (o % 8) bits) io'.dev.size ≡ true =
              ground (arith, s.inside) in
            e)
          (ap (λ x. (ok (twos bits x), io')) s.stores.holds)

-- A 64-bit pattern of an integer that `bits` bits hold in two's complement.
abbrev pub IsSigned : ℕ → ℕ → Type 0
IsSigned bits value =
    (value < 2 ^ (bits - 1)) ⊎ ((2 ^ 64 ≤ value + 2 ^ (bits - 1)) × (value < 2 ^ 64))

-- Its low bits are a two's complement integer of that width.
twos-mod :
    (bits value : ℕ)
    → 0 < bits
    → bits ≤ 64
    → IsSigned bits value
    → twos bits (value % 2 ^ bits) ≡ value
twos-mod bits value positive width signed =
    let half : 2 ^ bits ≡ 2 * 2 ^ (bits - 1) =
      ap (λ (x : ℕ). 2 ^ x) (let e : bits ≡ 1 + (bits - 1) = omega arith in e)
      ∙ pow-add 1 (bits - 1) in
    elim signed [
      | inl h ↦
          let low : value % 2 ^ bits ≡ value = mod-eq_of_lt (omega (arith, half)) in
          rw low (rw (lt→ltb value (2 ^ (bits - 1)) h))
      | inr h ↦
          let n = 2 ^ bits in
          let k = 2 ^ (64 - bits) in
          let room : 2 ^ 64 ≡ k * n =
            ap (λ (x : ℕ). 2 ^ x) (let e : 64 ≡ (64 - bits) + bits = omega arith in e)
            ∙ pow-add (64 - bits) bits in
          let some_room : 0 < k = one-le-pow (64 - bits) 2 (omega arith) in
          let split : k * n ≡ (k - 1) * n + n =
            ap (λ (x : ℕ). x * n) (let e : k ≡ (k - 1) + 1 = omega arith in e) ∙ omega arith in
          let w = value + n - 2 ^ 64 in
          let low : value % n ≡ w =
            ap (λ x. x % n)
              (let e : value ≡ w + (k - 1) * n = omega (arith, h, half, room, split) in e)
            ∙ add-mul-mod_self_right w (k - 1) n
            ∙ mod-eq_of_lt (omega (arith, h, half)) in
          rw (low, let e : ltb w (2 ^ (bits - 1)) ≡ false = ground (arith, h, half) in e)
            (omega (arith, h, half, room, split))
    ]

-- A `realloc` that succeeds returns an object, which has fewer than 2 ^ 63 bytes.
module _ (reallocated : ℕ → Bool) (bounded : (n : ℕ) → reallocated n ≡ true → n < 2 ^ 63)
    (io : Space MemDev) (endian : Endian) (offset : ℤ) (o bits : ℕ) (ready : Ready io o bits)
    (place : offset +ℤ io.bias ≡ pos o) where
  -- On a valid memory device of bytes that is readable and writable, when an unsigned write of a
  -- value of `bits` bits returns IOS_OK, an unsigned read at the same place, of the same width and
  -- byte order, gives the value back and leaves the space as it is.
  pub read-write_uint :
      (value : ℕ)
      → value < 2 ^ bits
      → (write_uint (mem_dev_if reallocated) io offset bits endian value).0 ≡ done ios_ok
      → read_uint
          (mem_dev_if reallocated)
          (write_uint (mem_dev_if reallocated) io offset bits endian value).1
          offset
          bits
          endian
        ≡ (ok value, (write_uint (mem_dev_if reallocated) io offset bits endian value).1)
  read-write_uint value fits wrote =
      read_uint-Stored reallocated io _ endian offset o bits value place (
        (write_uint_on_mem reallocated bounded io endian offset o bits ready place value fits).0
          wrote)

  -- On such a device, when a signed write of a value that `bits` bits hold in two's complement returns
  -- IOS_OK, a signed read at the same place, of the same width and byte order, gives the value back.
  pub read-write_int :
      (value : ℕ)
      → IsSigned bits value
      → (write_int (mem_dev_if reallocated) io offset bits endian value).0 ≡ done ios_ok
      → read_int
          (mem_dev_if reallocated)
          (write_int (mem_dev_if reallocated) io offset bits endian value).1
          offset
          bits
          endian
        ≡ (ok value, (write_int (mem_dev_if reallocated) io offset bits endian value).1)
  read-write_int value signed wrote =
      let io' = (write_int (mem_dev_if reallocated) io offset bits endian value).1 in
      read_int-Stored reallocated io io' endian offset o bits (value % 2 ^ bits) place
        ((write_int_on_mem reallocated bounded io endian offset o bits ready place value).0 wrote)
      ∙ ap (λ x. (ok x, io')) (twos-mod bits value ready.some_bits ready.width signed)
