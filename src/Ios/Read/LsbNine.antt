-- ===== src/Ios/Read/LsbNine.antt =====
-- The little endian branches that are not byte-aligned, for each case of the switch and each number
-- of whole groups of eight bits that it can hold.
use native.Mathlib.Nat.{
  lt_of_lt_of_le, pow-le-pow_right, one-le-pow, mul_assoc, mul-div_cancel, mul-lt-mul_of_pos_right,
}
use poke.Base.{
  ℕ, ◌+◌, ◌-◌, ◌*◌, ◌/◌, ◌^◌, ◌≤◌, ◌<◌, ◌≡◌, ◌≢◌, ◌∙◌, ap, arith, ◌==◌, false, ap₂, sym, pow-add,
}
use poke.Ios.Word.{lsb, bswap64, shl64-exact, shl_int-exact, get_msb, get_msb-eq, shr, ◌|||◌}
use poke.Ios.Read.Wide.{read_case_8}
use poke.Ios.Read.Concat.{or_byte, or_tail, last-lt}
use poke.Ios.Read.Realign.{realigned, bswap_7, register}

module _ (off bits lastbyte_bits p r : ℕ) (last : lastbyte_bits ≤ 8) (at : off < 8)
    (unaligned : off ≢ 0) (group : p < 2 ^ r) (some_bits : 0 < r) (narrow : r ≤ 8) where
  off-ne-zero : (off == 0) ≡ false
  off-ne-zero = ground arith

  group-lt : p < 256
  group-lt = lt_of_lt_of_le group (pow-le-pow_right {n = 2} (omega arith) narrow)

  -- `c[8] >> firstbyte_bits` completes the register.
  cut :
      (H c F : ℕ) {reg : ℕ}
      → c < 256
      → off + r ≡ 8 + lastbyte_bits
      → H * 2 ^ lastbyte_bits + c / 2 ^ (8 - lastbyte_bits) ≡ F * 2 ^ r + p
      → reg ≡ H * 2 ^ off
      → (reg ||| shr (get_msb c lastbyte_bits) (8 - off)) ≡ (F * 256 + p * 2 ^ (8 - r)) * 2 ^ 0
  cut H c F {reg} hc place value e =
      let d = off - lastbyte_bits in
      let h = c / 2 ^ (8 - lastbyte_bits) in
      let whole : 2 ^ off ≡ 2 ^ lastbyte_bits * 2 ^ d =
        ap (λ x. 2 ^ x) (let e' : off ≡ lastbyte_bits + d = omega arith in e')
        ∙ pow-add lastbyte_bits d in
      let low : shr (get_msb c lastbyte_bits) (8 - off) ≡ h * 2 ^ d =
        ap (λ x. shr x (8 - off)) (get_msb-eq c lastbyte_bits hc)
        ∙ ap (λ x. h * 2 ^ x / 2 ^ (8 - off))
            (let e' : 8 - lastbyte_bits ≡ d + (8 - off) = omega arith in e')
        ∙ ap (λ x. x / 2 ^ (8 - off))
            (ap (λ x. h * x) (pow-add d (8 - off)) ∙ sym (mul_assoc h (2 ^ d) (2 ^ (8 - off))))
        ∙ mul-div_cancel (h * 2 ^ d) (one-le-pow (8 - off) 2 (omega arith)) in
      let fits : h * 2 ^ d < 2 ^ off = omega (
        arith,
        whole,
        mul-lt-mul_of_pos_right {k = 2 ^ d} (last-lt c lastbyte_bits last hc)
            (one-le-pow d 2 (omega arith)),
      ) in
      ap (λ x. reg ||| x) low
      ∙ or_tail H (h * 2 ^ d) off e fits
      ∙ (let e' : H * 2 ^ off + h * 2 ^ d ≡ (H * 2 ^ lastbyte_bits + h) * 2 ^ d =
            omega (arith, ap (λ (x : ℕ). H * x) whole) in
          e')
      ∙ ap₂ (λ x y. x * 2 ^ y) value (let e' : d ≡ 8 - r + 0 = omega arith in e')
      ∙ sym (register 0 F p r narrow)

  pub read_case_8-lsb_7 :
      (c0 c1 c2 c3 c4 c5 c6 c7 c8 f0 f1 f2 f3 f4 f5 f6 : ℕ) (h0 : c0 < 2 ^ (8 - off))
      (h1 : c1 < 256) (h2 : c2 < 256) (h3 : c3 < 256) (h4 : c4 < 256) (h5 : c5 < 256)
      (h6 : c6 < 256) (h7 : c7 < 256) (h8 : c8 < 256) (g0 : f0 < 256) (g1 : f1 < 256)
      (g2 : f2 < 256) (g3 : f3 < 256) (g4 : f4 < 256) (g5 : f5 < 256) (g6 : f6 < 256)
      → bits ≡ 56 + r
      → off + bits ≡ 64 + lastbyte_bits
      → (((((((c0 * 256 + c1) * 256 + c2) * 256 + c3) * 256 + c4) * 256 + c5) * 256 + c6) * 256
              + c7)
            * 2 ^ lastbyte_bits
          + c8 / 2 ^ (8 - lastbyte_bits)
        ≡ ((((((f0 * 256 + f1) * 256 + f2) * 256 + f3) * 256 + f4) * 256 + f5) * 256 + f6) * 2 ^ r
          + p
      → read_case_8 lsb off bits lastbyte_bits c0 c1 c2 c3 c4 c5 c6 c7 c8
        ≡ f0 + 256 * (f1 + 256 * (f2 + 256 * (f3 + 256 * (f4 + 256 * (f5 + 256 * (f6 + 256 * p))))))
  unfolding read_case_8
  read_case_8-lsb_7 c0 c1 c2 c3 c4 c5 c6 c7 c8 f0 f1 f2 f3 f4 f5 f6 h0 h1 h2 h3 h4 h5 h6 h7 h8 g0 g1
        g2 g3 g4 g5 g6 width span value =
      ap bswap64 (
        realigned 7 0
          (((((((f0 * 256 + f1) * 256 + f2) * 256 + f3) * 256 + f4) * 256 + f5) * 256 + f6)) p r _
          (64 - bits) (omega arith) group narrow (omega arith)
          (cut
            ((((((((c0 * 256 + c1) * 256 + c2) * 256 + c3) * 256 + c4) * 256 + c5) * 256 + c6) * 256
              + c7))
            c8 (((((((f0 * 256 + f1) * 256 + f2) * 256 + f3) * 256 + f4) * 256 + f5) * 256 + f6)) h8
            (omega arith) value
            (or_byte
              (((((((c0) * 256 + c1) * 256 + c2) * 256 + c3) * 256 + c4) * 256 + c5) * 256 + c6) c7
              off (8 + off)
              (or_byte ((((((c0) * 256 + c1) * 256 + c2) * 256 + c3) * 256 + c4) * 256 + c5) c6
                (8 + off) (16 + off)
                (or_byte (((((c0) * 256 + c1) * 256 + c2) * 256 + c3) * 256 + c4) c5 (16 + off)
                  (24 + off)
                  (or_byte ((((c0) * 256 + c1) * 256 + c2) * 256 + c3) c4 (24 + off) (32 + off)
                    (or_byte (((c0) * 256 + c1) * 256 + c2) c3 (32 + off) (40 + off)
                      (or_byte ((c0) * 256 + c1) c2 (40 + off) (48 + off)
                        (or_byte (c0) c1 (48 + off) (56 + off)
                          (shl64-exact (8 - off) c0 (56 + off) h0 (omega arith))
                          (shl64-exact 8 c1 (48 + off) h1 (omega arith)) (omega arith) h1)
                        (shl64-exact 8 c2 (40 + off) h2 (omega arith)) (omega arith) h2)
                      (shl64-exact 8 c3 (32 + off) h3 (omega arith)) (omega arith) h3)
                    (shl64-exact 8 c4 (24 + off) h4 (omega arith)) (omega arith) h4)
                  (shl_int-exact 8 c5 (16 + off) h5 (omega arith)) (omega arith) h5)
                (shl_int-exact 8 c6 (8 + off) h6 (omega arith)) (omega arith) h6)
              (shl_int-exact 8 c7 off h7 (omega arith)) (omega arith) h7)))
      ∙ bswap_7 f0 f1 f2 f3 f4 f5 f6 p g0 g1 g2 g3 g4 g5 g6 group-lt
