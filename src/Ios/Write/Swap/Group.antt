-- ===== src/Ios/Write/Swap/Group.antt =====
-- One group of eight bits of a value (libpoke/ios.c), moved up and down.
use native.Mathlib.Nat.{pow-le-pow_right, one-le-pow, mul-div_cancel, div-lt_iff_lt-mul}
use poke.Base.{
  ℕ, ◌+◌, ◌-◌, ◌*◌, ◌/◌, ◌%◌, ◌^◌, ◌≤◌, ◌<◌, ◌≡◌, ◌∙◌, ap, arith, pow-add, bit_and_high,
  bit_and_low, mul-pow-lt,
}
use poke.Ios.Word.{shl64, shl64-exact, shr, ◌&&&◌}

pub group : (v k : ℕ) → (v &&& 255 * 2 ^ k) ≡ v / 2 ^ k % 256 * 2 ^ k
group v k =
    let pos : 0 < 2 ^ k = one-le-pow k 2 (omega arith) in
    ap (λ x. x &&& 255 * 2 ^ k) (let e : v ≡ v / 2 ^ k * 2 ^ k + v % 2 ^ k = omega arith in e)
    ∙ bit_and_high k (v / 2 ^ k) 255 (v % 2 ^ k) (omega arith)
    ∙ ap (λ x. x * 2 ^ k) (bit_and_low 8 (v / 2 ^ k))

-- A group moved up, and down.
pub shl_group :
    (v k s : ℕ) → k + 8 + s ≤ 64 → shl64 (v &&& 255 * 2 ^ k) s ≡ v / 2 ^ k % 256 * 2 ^ (k + s)
shl_group v k s h =
    let b = v / 2 ^ k % 256 in
    ap (λ x. shl64 x s) (group v k)
    ∙ shl64-exact (8 + k) (b * 2 ^ k) s (mul-pow-lt 8 k b (omega arith)) (omega arith)
    ∙ omega (arith, ap (λ (x : ℕ). b * x) (pow-add k s))

pub shr_group : (v k s : ℕ) → s ≤ k → shr (v &&& 255 * 2 ^ k) s ≡ v / 2 ^ k % 256 * 2 ^ (k - s)
shr_group v k s h =
    let b = v / 2 ^ k % 256 in
    ap (λ x. shr x s)
      (group v k
        ∙ omega (
          arith,
          ap (λ (x : ℕ). b * 2 ^ x) (let e : k ≡ (k - s) + s = omega arith in e),
          ap (λ (x : ℕ). b * x) (pow-add (k - s) s),
        ))
    ∙ mul-div_cancel (b * 2 ^ (k - s)) (one-le-pow s 2 (omega arith))

-- The last group, which has the top bits.
pub top_group :
    (v k r : ℕ)
    → r < 8
    → v < 2 ^ (k + r)
    → (shr (v &&& 255 * 2 ^ k) k ≡ v / 2 ^ k) × (v / 2 ^ k < 2 ^ r)
top_group v k r h fits =
    let small : v / 2 ^ k < 2 ^ r =
      (div-lt_iff_lt-mul {k = 2 ^ k} (one-le-pow k 2 (omega arith))).1
        (omega (arith, pow-add k r)) in
    let narrow : v / 2 ^ k < 256 =
      omega (arith, small, pow-le-pow_right {n = 2} (omega arith) {i = r} {j = 8} (omega arith)) in
    (
      ap (λ x. shr x k) (group v k)
          ∙ mul-div_cancel (v / 2 ^ k % 256) (one-le-pow k 2 (omega arith))
          ∙ omega arith,
      small,
    )
