-- ===== src/Ios/Read/Concat.antt =====
-- Shifted bytes joined by `|` are the number that their concatenation is.
use native.Mathlib.Nat.{mul-div_cancel, one-le-pow}
use poke.Base.{
  ℕ, ◌+◌, ◌-◌, ◌*◌, ◌/◌, ◌^◌, ◌≤◌, ◌<◌, ◌≡◌, ap, ap₂, ◌∙◌, arith, bit_or, bit_or_fields, pow-add,
  mul-pow-lt, div-pow-lt,
}
use poke.Ios.Word.{◌|||◌, shr, get_msb, get_msb-eq}

-- Byte `c` at place `s` below the number `h` at place `s + 8`.
pub or_byte :
    (h c s t : ℕ) {x y : ℕ}
    → x ≡ h * 2 ^ t
    → y ≡ c * 2 ^ s
    → t ≡ 8 + s
    → c < 256
    → x ||| y ≡ (h * 256 + c) * 2 ^ s
or_byte h c s t ex ey et hc =
    ap₂ bit_or (ex ∙ ap (λ k. h * 2 ^ k) et) ey
    ∙ bit_or_fields (8 + s) h (c * 2 ^ s) (mul-pow-lt 8 s c hc)
    ∙ omega (arith, ap (λ (k : ℕ). h * k) (pow-add 8 s))

-- `r` below the number `h` at place `s`.
pub or_tail : (h r s : ℕ) {x : ℕ} → x ≡ h * 2 ^ s → r < 2 ^ s → x ||| r ≡ h * 2 ^ s + r
or_tail h r s ex hr = ap (λ k. bit_or k r) ex ∙ bit_or_fields s h r hr

-- The last byte of a field, once its other bits are cleared.
pub shr-get_msb : (c n : ℕ) → n ≤ 8 → c < 256 → shr (get_msb c n) (8 - n) ≡ c / 2 ^ (8 - n)
shr-get_msb c n h hc =
    ap (λ x. shr x (8 - n)) (get_msb-eq c n hc)
    ∙ mul-div_cancel (c / 2 ^ (8 - n)) (one-le-pow (8 - n) 2 (omega arith))

pub last-lt : (c n : ℕ) → n ≤ 8 → c < 256 → c / 2 ^ (8 - n) < 2 ^ n
last-lt c n h hc =
    div-pow-lt n (8 - n) c
      (omega (arith, ap (λ (k : ℕ). 2 ^ k) (let e : n + (8 - n) ≡ 8 = omega arith in e)))
