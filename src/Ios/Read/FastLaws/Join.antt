-- ===== src/Ios/Read/FastLaws/Join.antt =====
-- Bytes joined by `|`, and the bytes that a buffer holds.
use poke.Base.{ℕ, ◌+◌, ◌*◌, ◌^◌, ◌<◌, ◌≡◌, refl, ◌∙◌, ap, arith, List, get_or}
use poke.Ios.Word.{◌|||◌}
use poke.Ios.Field.{IsBytes, field_whole, shift, shift_lem, field}
use poke.Ios.Read.Concat.{or_byte, or_tail}

pub join_2 :
    (b1 b0 : ℕ) {y1 : ℕ} → b1 < 256 → b0 < 256 → y1 ≡ b1 * 2 ^ 8 → (y1 ||| b0) ≡ b1 * 256 + b0
join_2 b1 b0 h1 h0 e1 = or_tail (b1) b0 8 e1 h0

pub join_3 :
    (b2 b1 b0 : ℕ) {y2 y1 : ℕ}
    → b2 < 256
    → b1 < 256
    → b0 < 256
    → y2 ≡ b2 * 2 ^ 16
    → y1 ≡ b1 * 2 ^ 8
    → (y2 ||| y1 ||| b0) ≡ (b2 * 256 + b1) * 256 + b0
join_3 b2 b1 b0 h2 h1 h0 e2 e1 =
    or_tail ((b2) * 256 + b1) b0 8 (or_byte (b2) b1 8 16 e2 e1 refl h1) h0

pub join_4 :
    (b3 b2 b1 b0 : ℕ) {y3 y2 y1 : ℕ}
    → b3 < 256
    → b2 < 256
    → b1 < 256
    → b0 < 256
    → y3 ≡ b3 * 2 ^ 24
    → y2 ≡ b2 * 2 ^ 16
    → y1 ≡ b1 * 2 ^ 8
    → (y3 ||| y2 ||| y1 ||| b0) ≡ ((b3 * 256 + b2) * 256 + b1) * 256 + b0
join_4 b3 b2 b1 b0 h3 h2 h1 h0 e3 e2 e1 =
    or_tail (((b3) * 256 + b2) * 256 + b1) b0 8
      (or_byte ((b3) * 256 + b2) b1 8 16 (or_byte (b3) b2 16 24 e3 e2 refl h2) e1 refl h1) h0

pub join_5 :
    (b4 b3 b2 b1 b0 : ℕ) {y4 y3 y2 y1 : ℕ}
    → b4 < 256
    → b3 < 256
    → b2 < 256
    → b1 < 256
    → b0 < 256
    → y4 ≡ b4 * 2 ^ 32
    → y3 ≡ b3 * 2 ^ 24
    → y2 ≡ b2 * 2 ^ 16
    → y1 ≡ b1 * 2 ^ 8
    → (y4 ||| y3 ||| y2 ||| y1 ||| b0) ≡ (((b4 * 256 + b3) * 256 + b2) * 256 + b1) * 256 + b0
join_5 b4 b3 b2 b1 b0 h4 h3 h2 h1 h0 e4 e3 e2 e1 =
    or_tail ((((b4) * 256 + b3) * 256 + b2) * 256 + b1) b0 8
      (or_byte (((b4) * 256 + b3) * 256 + b2) b1 8 16
        (or_byte ((b4) * 256 + b3) b2 16 24 (or_byte (b4) b3 24 32 e4 e3 refl h3) e2 refl h2) e1
        refl h1)
      h0

pub join_6 :
    (b5 b4 b3 b2 b1 b0 : ℕ) {y5 y4 y3 y2 y1 : ℕ}
    → b5 < 256
    → b4 < 256
    → b3 < 256
    → b2 < 256
    → b1 < 256
    → b0 < 256
    → y5 ≡ b5 * 2 ^ 40
    → y4 ≡ b4 * 2 ^ 32
    → y3 ≡ b3 * 2 ^ 24
    → y2 ≡ b2 * 2 ^ 16
    → y1 ≡ b1 * 2 ^ 8
    → (y5 ||| y4 ||| y3 ||| y2 ||| y1 ||| b0)
      ≡ ((((b5 * 256 + b4) * 256 + b3) * 256 + b2) * 256 + b1) * 256 + b0
join_6 b5 b4 b3 b2 b1 b0 h5 h4 h3 h2 h1 h0 e5 e4 e3 e2 e1 =
    or_tail (((((b5) * 256 + b4) * 256 + b3) * 256 + b2) * 256 + b1) b0 8
      (or_byte ((((b5) * 256 + b4) * 256 + b3) * 256 + b2) b1 8 16
        (or_byte (((b5) * 256 + b4) * 256 + b3) b2 16 24
          (or_byte ((b5) * 256 + b4) b3 24 32 (or_byte (b5) b4 32 40 e5 e4 refl h4) e3 refl h3) e2
          refl h2)
        e1 refl h1)
      h0

pub join_7 :
    (b6 b5 b4 b3 b2 b1 b0 : ℕ) {y6 y5 y4 y3 y2 y1 : ℕ}
    → b6 < 256
    → b5 < 256
    → b4 < 256
    → b3 < 256
    → b2 < 256
    → b1 < 256
    → b0 < 256
    → y6 ≡ b6 * 2 ^ 48
    → y5 ≡ b5 * 2 ^ 40
    → y4 ≡ b4 * 2 ^ 32
    → y3 ≡ b3 * 2 ^ 24
    → y2 ≡ b2 * 2 ^ 16
    → y1 ≡ b1 * 2 ^ 8
    → (y6 ||| y5 ||| y4 ||| y3 ||| y2 ||| y1 ||| b0)
      ≡ (((((b6 * 256 + b5) * 256 + b4) * 256 + b3) * 256 + b2) * 256 + b1) * 256 + b0
join_7 b6 b5 b4 b3 b2 b1 b0 h6 h5 h4 h3 h2 h1 h0 e6 e5 e4 e3 e2 e1 =
    or_tail ((((((b6) * 256 + b5) * 256 + b4) * 256 + b3) * 256 + b2) * 256 + b1) b0 8
      (or_byte (((((b6) * 256 + b5) * 256 + b4) * 256 + b3) * 256 + b2) b1 8 16
        (or_byte ((((b6) * 256 + b5) * 256 + b4) * 256 + b3) b2 16 24
          (or_byte (((b6) * 256 + b5) * 256 + b4) b3 24 32
            (or_byte ((b6) * 256 + b5) b4 32 40 (or_byte (b6) b5 40 48 e6 e5 refl h5) e4 refl h4) e3
            refl h3)
          e2 refl h2)
        e1 refl h1)
      h0

pub join_8 :
    (b7 b6 b5 b4 b3 b2 b1 b0 : ℕ) {y7 y6 y5 y4 y3 y2 y1 : ℕ}
    → b7 < 256
    → b6 < 256
    → b5 < 256
    → b4 < 256
    → b3 < 256
    → b2 < 256
    → b1 < 256
    → b0 < 256
    → y7 ≡ b7 * 2 ^ 56
    → y6 ≡ b6 * 2 ^ 48
    → y5 ≡ b5 * 2 ^ 40
    → y4 ≡ b4 * 2 ^ 32
    → y3 ≡ b3 * 2 ^ 24
    → y2 ≡ b2 * 2 ^ 16
    → y1 ≡ b1 * 2 ^ 8
    → (y7 ||| y6 ||| y5 ||| y4 ||| y3 ||| y2 ||| y1 ||| b0)
      ≡ ((((((b7 * 256 + b6) * 256 + b5) * 256 + b4) * 256 + b3) * 256 + b2) * 256 + b1) * 256 + b0
join_8 b7 b6 b5 b4 b3 b2 b1 b0 h7 h6 h5 h4 h3 h2 h1 h0 e7 e6 e5 e4 e3 e2 e1 =
    or_tail (((((((b7) * 256 + b6) * 256 + b5) * 256 + b4) * 256 + b3) * 256 + b2) * 256 + b1) b0 8
      (or_byte ((((((b7) * 256 + b6) * 256 + b5) * 256 + b4) * 256 + b3) * 256 + b2) b1 8 16
        (or_byte (((((b7) * 256 + b6) * 256 + b5) * 256 + b4) * 256 + b3) b2 16 24
          (or_byte ((((b7) * 256 + b6) * 256 + b5) * 256 + b4) b3 24 32
            (or_byte (((b7) * 256 + b6) * 256 + b5) b4 32 40
              (or_byte ((b7) * 256 + b6) b5 40 48 (or_byte (b7) b6 48 56 e7 e6 refl h6) e5 refl h5)
              e4 refl h4)
            e3 refl h3)
          e2 refl h2)
        e1 refl h1)
      h0

-- `c` holds the first `n` bytes of `mem` from byte `a` on.
abbrev pub HoldsBytes : (ℕ → ℕ) → ℕ → List ℕ → ℕ → Type 0
HoldsBytes mem a c n = (i : ℕ) → i < n → get_or c i 0 ≡ mem (a + i)

module _ (mem : ℕ → ℕ) (bytes : IsBytes mem) (a : ℕ) where
  pub byte_group : (i : ℕ) → field mem (shift (8 * a) i) 8 ≡ mem (a + i)
  byte_group i =
      ap (λ p. field mem p 8)
        (let e : shift (8 * a) i ≡ 8 * (a + i) = omega (arith, shift_lem (8 * a) i) in e)
      ∙ field_whole mem bytes (a + i)
