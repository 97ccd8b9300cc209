-- ===== src/Ios/Write/Bytes/Parts.antt =====
-- The bytes of a buffer that `ios_write_int_common` (libpoke/ios.c) writes, one by one.
use native.Mathlib.Nat.{
  add-mul-mod_self_right, mul-lt-mul_of_pos_right, mul-le-mul_right, mod-lt, one-le-pow,
  mod-eq_of_lt, div-lt_iff_lt-mul,
}
use poke.Base.{
  ℕ, suc, ◌+◌, ◌-◌, ◌*◌, ◌/◌, ◌%◌, ◌^◌, ◌≤◌, ◌<◌, ◌≡◌, ◌∙◌, sym, ap, ap₂, arith, pow-add, bit_or,
  bit_or_comm, bit_or_fields, bit_and_low, List, length, get_or,
}
use poke.Ios.Word.{shl64, shr, get_lsb, get_msb, get_lsb-eq, get_msb-eq, ◌|||◌, ◌&&&◌}

pub eight_split : (n : ℕ) → n ≤ 8 → 2 ^ n * 2 ^ (8 - n) ≡ 256
eight_split n h =
    sym (pow-add n (8 - n)) ∙ ap (λ (x : ℕ). 2 ^ x) (let e : n + (8 - n) ≡ 8 = omega arith in e)

-- The first byte keeps its leading bits.
pub first_lem :
    (c off v s : ℕ)
    → c < 256
    → off < 8
    → v < 2 ^ (8 - off + s)
    → (get_msb c off ||| shr v s) % 256 ≡ c / 2 ^ (8 - off) * 2 ^ (8 - off) + v / 2 ^ s
first_lem c off v s hc ho hv =
    let n = 8 - off in
    let pos : 0 < 2 ^ n = one-le-pow n 2 (omega arith) in
    let small : v / 2 ^ s < 2 ^ n =
      (div-lt_iff_lt-mul {k = 2 ^ s} (one-le-pow s 2 (omega arith))).1
        (omega (arith, pow-add n s)) in
    let room : c / 2 ^ n < 2 ^ off =
      (div-lt_iff_lt-mul {k = 2 ^ n} pos).1 (omega (arith, eight_split off (omega arith))) in
    let byte : c / 2 ^ n * 2 ^ n + v / 2 ^ s < 256 = omega (
      arith,
      small,
      eight_split off (omega arith),
      mul-le-mul_right {m = c / 2 ^ n} {n = 2 ^ off - 1} (2 ^ n) (omega arith),
      one-le-pow off 2,
      ap (λ (x : ℕ). x * 2 ^ n)
          (let e : 2 ^ off ≡ suc (2 ^ off - 1) = omega (arith, one-le-pow off 2) in e),
    ) in
    ap (λ x. bit_or x (shr v s) % 256) (get_msb-eq c off hc)
    ∙ ap (λ x. x % 256) (bit_or_fields n (c / 2 ^ n) (v / 2 ^ s) small)
    ∙ mod-eq_of_lt byte

pub mul-mod-mul_right : (p v m : ℕ) → 0 < p → 0 < m → v * p % (m * p) ≡ v % m * p
mul-mod-mul_right p v m hp hm =
    ap (λ x. x % (m * p))
      (let e : v * p ≡ v % m * p + v / m * (m * p) =
          omega (arith, ap (λ (x : ℕ). x * p) (let f : v ≡ v / m * m + v % m = omega arith in f)) in
        e)
    ∙ add-mul-mod_self_right (v % m * p) (v / m) (m * p)
    ∙ mod-eq_of_lt (mul-lt-mul_of_pos_right {m = v % m} {n = m} {k = p} (mod-lt v hm) hp)

-- The low bits of a shifted word.
pub shl_low : (v n : ℕ) → n ≤ 8 → (shl64 v (8 - n) &&& 0xff) ≡ v % 2 ^ n * 2 ^ (8 - n)
unfolding shl64
shl_low v n h =
    let p = 2 ^ (8 - n) in
    bit_and_low 8 (v * p % 2 ^ 64)
    ∙ (let e : v * p % 2 ^ 64 % 256 ≡ v * p % 256 = omega arith in e)
    ∙ ap (λ x. v * p % x) (sym (eight_split n h))
    ∙ mul-mod-mul_right p v (2 ^ n) (one-le-pow (8 - n) 2 (omega arith))
        (one-le-pow n 2 (omega arith))

-- The last byte keeps its trailing bits.
pub last_lem :
    (c lb v : ℕ)
    → lb ≤ 8
    → (get_lsb c (8 - lb) ||| (shl64 v (8 - lb) &&& 0xff))
      ≡ v % 2 ^ lb * 2 ^ (8 - lb) + c % 2 ^ (8 - lb)
last_lem c lb v h =
    let n = 8 - lb in
    ap₂ bit_or (get_lsb-eq c n (omega arith)) (shl_low v lb h)
    ∙ bit_or_comm (c % 2 ^ n) (v % 2 ^ lb * 2 ^ n)
    ∙ bit_or_fields n (v % 2 ^ lb) (c % 2 ^ n) (mod-lt c (one-le-pow n 2 (omega arith)))

-- The bytes of `v` from bit `off` of the first byte to bit `lb` of the last one, which is byte
-- `j + 1`. `c0` and `cn` are what the two held.
pub record Buffer (c0 cn off lb j v : ℕ) (buf : List ℕ) : Type 0 where
  pub len : length buf ≡ suc (suc j)
  pub first : get_or buf 0 0 ≡ c0 / 2 ^ (8 - off) * 2 ^ (8 - off) + v / 2 ^ (8 * j + lb)
  pub mid : (i : ℕ) → i < j → get_or buf (suc i) 0 ≡ v / 2 ^ (8 * (j - suc i) + lb) % 256
  pub last : get_or buf (suc j) 0 ≡ v % 2 ^ lb * 2 ^ (8 - lb) + cn % 2 ^ (8 - lb)
