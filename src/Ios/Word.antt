-- ===== src/Ios/Word.antt =====
-- The words of libpoke/ios.c: shifts of C at the types that the code uses them at, the macros
-- IOS_CHAR_GET_LSB and IOS_CHAR_GET_MSB, and `bswap_64`.
use native.Mathlib.Nat.{one-le-pow, pow-le-pow_right, div-mul-le_self}
use poke.Base.{
  ℕ, zero, suc, ◌+◌, ◌-◌, ◌*◌, ◌/◌, ◌%◌, ◌^◌, ◌≤◌, ◌<◌, ◌≡◌, refl, ◌∙◌, ap, arith, bit_and, bit_or,
  ltb, if◌then◌else◌, bit_and_low, bit_and_high, mul-pow-lt,
}

-- `enum ios_endian`
pub data Endian : Type 0 where
  lsb msb : Endian

-- `|` and `&`
infixl 40 ◌|||◌
abbrev pub ◌|||◌ : ℕ → ℕ → ℕ
x ||| y = bit_or x y

infixl 45 ◌&&&◌
abbrev pub ◌&&&◌ : ℕ → ℕ → ℕ
x &&& y = bit_and x y

-- `x >> k` of an unsigned value, or of an `int` that is not negative.
abbrev pub shr : ℕ → ℕ → ℕ
shr x k = x / 2 ^ k

-- `x << k` at `uint64_t`.
unfoldable pub shl64 : ℕ → ℕ → ℕ
shl64 x k = x * 2 ^ k % 2 ^ 64

-- `x >> k` at `int64_t`: the sign is shifted in.
unfoldable pub sar64 : ℕ → ℕ → ℕ
sar64 x k = if ltb x (2 ^ 63) then x / 2 ^ k else x / 2 ^ k + (2 ^ 64 - 2 ^ (64 - k))

-- `x << k` at `int`, as the 64-bit pattern that it has once it is stored into a `uint64_t`: a
-- result with bit 31 set is negative, and its sign is extended.
unfoldable pub shl_int : ℕ → ℕ → ℕ
shl_int x k = let v = x * 2 ^ k % 2 ^ 32 in if ltb v (2 ^ 31) then v else v + (2 ^ 64 - 2 ^ 32)

-- `*value &= 0xFFU >> (CHAR_BIT - significant_bits)`
unfoldable pub get_lsb : ℕ → ℕ → ℕ
get_lsb value significant_bits = bit_and value (255 / 2 ^ (8 - significant_bits))

-- `*value &= 0xFFU << (CHAR_BIT - significant_bits)`
unfoldable pub get_msb : ℕ → ℕ → ℕ
get_msb value significant_bits = bit_and value (255 * 2 ^ (8 - significant_bits))

-- The byte at place `i` of a word, counted from the least significant one.
abbrev pub byte_of : ℕ → ℕ → ℕ
byte_of x i = x / 2 ^ (8 * i) % 256

unfoldable pub bswap64 : ℕ → ℕ
bswap64 x =
    byte_of x 0 * 2 ^ 56
    + byte_of x 1 * 2 ^ 48
    + byte_of x 2 * 2 ^ 40
    + byte_of x 3 * 2 ^ 32
    + byte_of x 4 * 2 ^ 24
    + byte_of x 5 * 2 ^ 16
    + byte_of x 6 * 2 ^ 8
    + byte_of x 7

-- A shift whose result has at most 64 bits loses nothing.
pub shl64-exact : (a c s : ℕ) → c < 2 ^ a → a + s ≤ 64 → shl64 c s ≡ c * 2 ^ s
unfolding shl64
shl64-exact a c s h fits =
    omega
      (arith, mul-pow-lt a s c h, pow-le-pow_right {n = 2} (omega arith) {i = a + s} {j = 64} fits)

-- Nor does a shift at `int` whose result has at most 31 bits.
pub shl_int-exact : (a c s : ℕ) → c < 2 ^ a → a + s ≤ 31 → shl_int c s ≡ c * 2 ^ s
unfolding shl_int
shl_int-exact a c s h fits =
    ground
      (arith, mul-pow-lt a s c h, pow-le-pow_right {n = 2} (omega arith) {i = a + s} {j = 31} fits)

mask_lsb : (n : ℕ) → n ≤ 8 → 255 / 2 ^ (8 - n) ≡ 2 ^ n - 1
mask_lsb zero h = refl
mask_lsb (suc zero) h = refl
mask_lsb (suc (suc zero)) h = refl
mask_lsb (suc (suc (suc zero))) h = refl
mask_lsb (suc (suc (suc (suc zero)))) h = refl
mask_lsb (suc (suc (suc (suc (suc zero))))) h = refl
mask_lsb (suc (suc (suc (suc (suc (suc zero)))))) h = refl
mask_lsb (suc (suc (suc (suc (suc (suc (suc zero))))))) h = refl
mask_lsb (suc (suc (suc (suc (suc (suc (suc (suc n)))))))) h = let e : n ≡ 0 = omega arith in rw e

-- IOS_CHAR_GET_LSB is the remainder.
pub get_lsb-eq : (v n : ℕ) → n ≤ 8 → get_lsb v n ≡ v % 2 ^ n
unfolding get_lsb
get_lsb-eq v n h = rw (mask_lsb n h) (bit_and_low n v)

-- IOS_CHAR_GET_MSB clears the low bits of a byte.
pub get_msb-eq : (v n : ℕ) → v < 256 → get_msb v n ≡ v / 2 ^ (8 - n) * 2 ^ (8 - n)
unfolding get_msb
get_msb-eq v n h =
    let d = 2 ^ (8 - n) in
    let pos : 0 < d = one-le-pow (8 - n) 2 (omega arith) in
    let whole : v ≡ v / d * d + v % d = omega arith in
    ap (λ x. bit_and x (255 * d)) whole
    ∙ bit_and_high (8 - n) (v / d) 255 (v % d) (omega arith)
    ∙ ap (λ x. x * d) (bit_and_low 8 (v / d) ∙ omega arith)

pub get_msb-lt : (v n : ℕ) → v < 256 → get_msb v n < 256
get_msb-lt v n h = rw (get_msb-eq v n h) (omega (arith, div-mul-le_self v (2 ^ (8 - n))))
