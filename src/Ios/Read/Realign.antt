-- ===== src/Ios/Read/Realign.antt =====
-- The little endian branches that are not byte-aligned: the partial byte is moved to the right of
-- its byte of the register, and `bswap64` puts the groups in order.
use native.Mathlib.Nat.{
  one-le-pow, mul-div_cancel, mul-mod_left, mod-eq_of_lt, add-zero, mul_right_comm, lt_of_lt_of_le,
  pow-le-pow_right,
}
use poke.Base.{
  ℕ, ◌+◌, ◌-◌, ◌*◌, ◌/◌, ◌%◌, ◌^◌, ◌≤◌, ◌<◌, ◌≡◌, ◌∙◌, ap, ap₂, sym, arith, bit_or, bit_or_comm,
  bit_and_low, bit_and_high, bit_and_split, bit_or_fields, pow-add, mul-pow-lt,
}
use poke.Ios.Word.{◌|||◌, ◌&&&◌, shr, bswap64, get_msb, get_msb-eq}

-- `F` holds `q` groups, and `p` is the last one of `r` bits; `k` bits of the register are free.
module _ (k F p r : ℕ) (narrow : r ≤ 8) where
  pub register : (F * 256 + p * 2 ^ (8 - r)) * 2 ^ k ≡ (F * 2 ^ r + p) * 2 ^ (8 - r + k)
  register =
      let eight : 2 ^ r * 2 ^ (8 - r) ≡ 256 =
        sym (pow-add r (8 - r))
        ∙ ap (λ (x : ℕ). 2 ^ x) (let e : r + (8 - r) ≡ 8 = omega arith in e) in
      omega (
        arith,
        ap (λ (x : ℕ). F * x * 2 ^ k) eight,
        ap (λ (x : ℕ). (F * 2 ^ r + p) * x) (pow-add (8 - r) k),
      )

module _ (q k F p r : ℕ) (fits : F < 2 ^ (8 * q)) (last : p < 2 ^ r) (narrow : r ≤ 8) where
  pub byte-lt : p * 2 ^ (8 - r) < 256
  byte-lt = omega (
    arith,
    mul-pow-lt r (8 - r) p last,
    ap (λ (x : ℕ). 2 ^ x) (let e : r + (8 - r) ≡ 8 = omega arith in e),
  )

  moved : shr ((F * 256 + p * 2 ^ (8 - r)) * 2 ^ k &&& 255 * 2 ^ k) (8 - r) ≡ p * 2 ^ k
  moved =
      ap (λ x. shr x (8 - r))
        (ap (λ x. x &&& 255 * 2 ^ k) (sym (add-zero ((F * 256 + p * 2 ^ (8 - r)) * 2 ^ k)))
          ∙ bit_and_high k (F * 256 + p * 2 ^ (8 - r)) 255 0 (one-le-pow k 2 (omega arith))
          ∙ ap (λ x. x * 2 ^ k)
              (bit_and_low 8 (F * 256 + p * 2 ^ (8 - r))
                ∙ (let e : (F * 256 + p * 2 ^ (8 - r)) % 256 ≡ p * 2 ^ (8 - r) =
                      omega (arith, byte-lt) in
                    e)))
      ∙ ap (λ x. x / 2 ^ (8 - r)) (mul_right_comm p (2 ^ (8 - r)) (2 ^ k))
      ∙ mul-div_cancel (p * 2 ^ k) (one-le-pow (8 - r) 2 (omega arith))

  kept :
      (F * 256 + p * 2 ^ (8 - r)) * 2 ^ k &&& ((2 ^ (8 * q) - 1) * 2 ^ (8 + k) + (2 ^ k - 1))
      ≡ F * 2 ^ (8 + k)
  kept =
      ap (λ x. x &&& ((2 ^ (8 * q) - 1) * 2 ^ (8 + k) + (2 ^ k - 1)))
        (let e : (F * 256 + p * 2 ^ (8 - r)) * 2 ^ k ≡ F * 2 ^ (8 + k) + p * 2 ^ (8 - r) * 2 ^ k =
            omega (arith, ap (λ (x : ℕ). F * x) (pow-add 8 k)) in
          e)
      ∙ bit_and_split (8 + k) F (2 ^ (8 * q) - 1) (p * 2 ^ (8 - r) * 2 ^ k) (2 ^ k - 1)
          (mul-pow-lt 8 k (p * 2 ^ (8 - r)) byte-lt) (omega (arith, pow-add 8 k, one-le-pow k 2))
      ∙ ap₂ (λ x y. x * 2 ^ (8 + k) + y) (bit_and_low (8 * q) F ∙ mod-eq_of_lt fits)
          (bit_and_low k (p * 2 ^ (8 - r) * 2 ^ k) ∙ mul-mod_left (p * 2 ^ (8 - r)) (2 ^ k))
      ∙ add-zero (F * 2 ^ (8 + k))

  pub realign :
      (shr ((F * 256 + p * 2 ^ (8 - r)) * 2 ^ k &&& 255 * 2 ^ k) (8 - r)
        ||| ((F * 256 + p * 2 ^ (8 - r)) * 2 ^ k
            &&& ((2 ^ (8 * q) - 1) * 2 ^ (8 + k) + (2 ^ k - 1))))
      ≡ (F * 256 + p) * 2 ^ k
  realign =
      ap₂ bit_or moved kept
      ∙ bit_or_comm (p * 2 ^ k) (F * 2 ^ (8 + k))
      ∙ bit_or_fields (8 + k) F (p * 2 ^ k)
          (mul-pow-lt 8 k p (lt_of_lt_of_le last (pow-le-pow_right {n = 2} (omega arith) narrow)))
      ∙ omega (arith, ap (λ (x : ℕ). F * x) (pow-add 8 k))

-- The field that the bytes read hold, `lastbyte_bits` of the last one, is that of the groups.
pub regroup :
    (s t H c lastbyte_bits F p r reg : ℕ)
    → lastbyte_bits ≤ 8
    → r ≤ 8
    → c < 256
    → H * 2 ^ lastbyte_bits + c / 2 ^ (8 - lastbyte_bits) ≡ F * 2 ^ r + p
    → 8 - lastbyte_bits + s ≡ 8 - r + t
    → reg ≡ (H * 256 + get_msb c lastbyte_bits) * 2 ^ s
    → reg ≡ (F * 256 + p * 2 ^ (8 - r)) * 2 ^ t
regroup s t H c lastbyte_bits F p r reg hl hr hc value place e =
    e
    ∙ ap (λ x. (H * 256 + x) * 2 ^ s) (get_msb-eq c lastbyte_bits hc)
    ∙ register s H (c / 2 ^ (8 - lastbyte_bits)) lastbyte_bits hl
    ∙ ap₂ (λ x y. x * 2 ^ y) value place
    ∙ sym (register t F p r hr)

-- What the code hands to `bswap64`.
pub realigned :
    (q k F p r reg shift : ℕ)
    → F < 2 ^ (8 * q)
    → p < 2 ^ r
    → r ≤ 8
    → shift ≡ 8 - r
    → reg ≡ (F * 256 + p * 2 ^ (8 - r)) * 2 ^ k
    → (shr (reg &&& 255 * 2 ^ k) shift
        ||| (reg &&& ((2 ^ (8 * q) - 1) * 2 ^ (8 + k) + (2 ^ k - 1))))
      ≡ (F * 256 + p) * 2 ^ k
realigned q k F p r reg shift fits last narrow es er =
    ap₂
      (λ x y. shr (x &&& 255 * 2 ^ k) y ||| (x &&& ((2 ^ (8 * q) - 1) * 2 ^ (8 + k) + (2 ^ k - 1))))
      er es
    ∙ realign q k F p r fits last narrow

pub bswap_1 :
    (f0 p : ℕ) (h0 : f0 < 256) (h : p < 256) → bswap64 ((f0 * 256 + p) * 2 ^ 48) ≡ f0 + 256 * p
unfolding bswap64
bswap_1 f0 p h0 h = omega arith

pub bswap_2 :
    (f0 f1 p : ℕ) (h0 : f0 < 256) (h1 : f1 < 256) (h : p < 256)
    → bswap64 (((f0 * 256 + f1) * 256 + p) * 2 ^ 40) ≡ f0 + 256 * (f1 + 256 * p)
unfolding bswap64
bswap_2 f0 f1 p h0 h1 h = omega arith

pub bswap_3 :
    (f0 f1 f2 p : ℕ) (h0 : f0 < 256) (h1 : f1 < 256) (h2 : f2 < 256) (h : p < 256)
    → bswap64 ((((f0 * 256 + f1) * 256 + f2) * 256 + p) * 2 ^ 32)
      ≡ f0 + 256 * (f1 + 256 * (f2 + 256 * p))
unfolding bswap64
bswap_3 f0 f1 f2 p h0 h1 h2 h = omega arith

pub bswap_4 :
    (f0 f1 f2 f3 p : ℕ) (h0 : f0 < 256) (h1 : f1 < 256) (h2 : f2 < 256) (h3 : f3 < 256)
    (h : p < 256)
    → bswap64 (((((f0 * 256 + f1) * 256 + f2) * 256 + f3) * 256 + p) * 2 ^ 24)
      ≡ f0 + 256 * (f1 + 256 * (f2 + 256 * (f3 + 256 * p)))
unfolding bswap64
bswap_4 f0 f1 f2 f3 p h0 h1 h2 h3 h = omega arith

pub bswap_5 :
    (f0 f1 f2 f3 f4 p : ℕ) (h0 : f0 < 256) (h1 : f1 < 256) (h2 : f2 < 256) (h3 : f3 < 256)
    (h4 : f4 < 256) (h : p < 256)
    → bswap64 ((((((f0 * 256 + f1) * 256 + f2) * 256 + f3) * 256 + f4) * 256 + p) * 2 ^ 16)
      ≡ f0 + 256 * (f1 + 256 * (f2 + 256 * (f3 + 256 * (f4 + 256 * p))))
unfolding bswap64
bswap_5 f0 f1 f2 f3 f4 p h0 h1 h2 h3 h4 h = omega arith

pub bswap_6 :
    (f0 f1 f2 f3 f4 f5 p : ℕ) (h0 : f0 < 256) (h1 : f1 < 256) (h2 : f2 < 256) (h3 : f3 < 256)
    (h4 : f4 < 256) (h5 : f5 < 256) (h : p < 256)
    → bswap64
        (((((((f0 * 256 + f1) * 256 + f2) * 256 + f3) * 256 + f4) * 256 + f5) * 256 + p) * 2 ^ 8)
      ≡ f0 + 256 * (f1 + 256 * (f2 + 256 * (f3 + 256 * (f4 + 256 * (f5 + 256 * p)))))
unfolding bswap64
bswap_6 f0 f1 f2 f3 f4 f5 p h0 h1 h2 h3 h4 h5 h = omega arith

pub bswap_7 :
    (f0 f1 f2 f3 f4 f5 f6 p : ℕ) (h0 : f0 < 256) (h1 : f1 < 256) (h2 : f2 < 256) (h3 : f3 < 256)
    (h4 : f4 < 256) (h5 : f5 < 256) (h6 : f6 < 256) (h : p < 256)
    → bswap64 (
        (((((((f0 * 256 + f1) * 256 + f2) * 256 + f3) * 256 + f4) * 256 + f5) * 256 + f6) * 256 + p)
        * 2 ^ 0)
      ≡ f0 + 256 * (f1 + 256 * (f2 + 256 * (f3 + 256 * (f4 + 256 * (f5 + 256 * (f6 + 256 * p))))))
unfolding bswap64
bswap_7 f0 f1 f2 f3 f4 f5 f6 p h0 h1 h2 h3 h4 h5 h6 h = omega arith
