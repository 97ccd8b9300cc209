-- ===== src/Ios/OnZero.antt =====
-- `ios_read_uint` (libpoke/ios.c) on the device of zeros (libpoke/ios-dev-zero.c).
mod Tests
use native.Mathlib.Nat.{zero-div}
use poke.Base.{
  ℕ, zero, suc, ◌+◌, ◌*◌, ◌/◌, ◌%◌, ◌^◌, ◌-◌, ◌≤◌, ◌<◌, ◌≡◌, refl, ◌∙◌, sym, ap, arith, ◌∷◌,
  replicate,
}
use poke.Base.Int.{ℤ, pos, ◌+ℤ◌}
use poke.Iod.{DevIf, ios_ok, bytes_at}
use poke.Iod.Zero.{ZeroDev, zero_dev_if, ios_dev_zero_pread, ios_dev_zero_pwrite}
use poke.Ios.Word.{Endian, lsb, msb}
use poke.Ios.Space.{Space}
use poke.Ios.Field.{field, field_lsb, int_at}
use poke.Ios.Read.CommonLaws.{bytes_spanned}
use poke.Ios.Read.Common.{ok}
use poke.Ios.Read.Api.{read_uint}
use poke.Ios.Read.Results.{read_uint-int_at}

abbrev zeros : ℕ → ℕ
zeros i = 0

bit_zero : (e : ℕ) → 0 / 2 ^ e % 2 ≡ 0
bit_zero e = ap (λ x. x % 2) (zero-div (2 ^ e))

field-zeros : (p n : ℕ) → field zeros p n ≡ 0
unfolding field
field-zeros p zero = refl
field-zeros p (suc n) = omega (arith, field-zeros p n, bit_zero (7 - (p + n) % 8))

field_lsb-zeros : (p q r : ℕ) → field_lsb zeros p q r ≡ 0
unfolding field_lsb
field_lsb-zeros p zero r = field-zeros p r
field_lsb-zeros p (suc q) r = omega (arith, field-zeros p 8, field_lsb-zeros (p + 8) q r)

int_at-zeros : (endian : Endian) (p bits : ℕ) → int_at zeros endian p bits ≡ 0
unfolding int_at
int_at-zeros msb p bits = field-zeros p bits
int_at-zeros lsb p bits = field_lsb-zeros p _ _

bytes_at-zeros : (a n : ℕ) → replicate n 0 ≡ bytes_at zeros a n
unfolding bytes_at
bytes_at-zeros a zero = refl
bytes_at-zeros a (suc n) = ap (λ xs. 0 ∷ xs) (bytes_at-zeros (suc a) n)

-- On the device of zeros an unsigned integer reads as 0, at any biased bit offset that is not negative,
-- of each width from 1 to 64 and in each byte order, and nothing changes.
pub read_uint_on_zero :
    (io : Space ZeroDev) (offset : ℤ) (o bits : ℕ) (endian : Endian)
    → 0 < bits
    → bits ≤ 64
    → offset +ℤ io.bias ≡ pos o
    → read_uint zero_dev_if io offset bits endian ≡ (ok 0, io)
unfolding zero_dev_if ios_dev_zero_pread
read_uint_on_zero io offset o bits endian some_bits width place =
    read_uint-int_at zero_dev_if zeros (λ i. omega arith) io io.dev offset o bits endian some_bits
      width place refl
      (ap (λ xs. (0, xs, io.dev)) (bytes_at-zeros (o / 8) (bytes_spanned (o % 8) bits)))
    ∙ ap (λ v. (ok v, io)) (int_at-zeros endian o bits)
