-- ===== src/Ios/Read/Sign.antt =====
-- The sign extension of `ios_read_int`.
use native.Mathlib.Nat.{one-le-pow, mul-div_cancel, mul-lt-mul_of_pos_right, lt_of_mul-lt-mul_right}
use poke.Base.{ℕ, ◌+◌, ◌-◌, ◌*◌, ◌/◌, ◌^◌, ◌≤◌, ◌<◌, ◌≡◌, ◌∙◌, ap, arith, ltb, pow-add, ltb-congr}
use poke.Ios.Word.{shl64-exact}
use poke.Ios.Field.{twos}
use poke.Ios.Read.Fast.{sign_extend, int8}

pub sign_extend-twos :
    (bits v : ℕ) → 0 < bits → bits ≤ 64 → v < 2 ^ bits → sign_extend v (64 - bits) ≡ twos bits v
unfolding sign_extend
sign_extend-twos bits v some width h =
    let k = 64 - bits in
    let pos : 0 < 2 ^ k = one-le-pow k 2 (omega arith) in
    let half : 2 ^ 63 ≡ 2 ^ (bits - 1) * 2 ^ k =
      ap (λ x. 2 ^ x) (let e : 63 ≡ bits - 1 + k = omega arith in e) ∙ pow-add (bits - 1) k in
    let back : 64 - k ≡ bits = omega arith in
    let cancel : v * 2 ^ k / 2 ^ k ≡ v = mul-div_cancel v pos in
    let same : ltb (v * 2 ^ k) (2 ^ 63) ≡ ltb v (2 ^ (bits - 1)) =
      ltb-congr (v * 2 ^ k) (2 ^ 63) v (2 ^ (bits - 1))
        (λ p. lt_of_mul-lt-mul_right (2 ^ k) (rw half at p))
        (λ p. omega (arith, half, mul-lt-mul_of_pos_right {k = 2 ^ k} p pos)) in
    rw (shl64-exact bits v k h (omega arith), back, cancel, same)

pub int8-twos : (c : ℕ) → int8 c ≡ twos 8 c
unfolding int8
int8-twos c = ground arith
