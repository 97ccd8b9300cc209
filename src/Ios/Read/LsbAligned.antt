-- ===== src/Ios/Read/LsbAligned.antt =====
-- The little endian branches at a byte boundary, and those of two bytes.
use native.Mathlib.Nat.{mul_assoc}
use poke.Base.{
  ℕ, ◌+◌, ◌-◌, ◌*◌, ◌/◌, ◌%◌, ◌^◌, ◌≤◌, ◌<◌, ◌≡◌, ◌≢◌, ◌∙◌, ap, ap₂, sym, refl, arith, ◌==◌, leb,
  false, true, bit_and_low, pow-add, mul-pow-lt,
}
use poke.Ios.Word.{
  lsb, msb, shl64, shl_int, shl64-exact, shl_int-exact, get_msb, get_msb-lt, get_msb-eq, shr, ◌|||◌,
  ◌&&&◌,
}
use poke.Ios.Read.Narrow.{read_case_1, read_case_2, read_case_3, read_case_4}
use poke.Ios.Read.Wide.{read_case_5, read_case_6, read_case_7}
use poke.Ios.Read.Concat.{or_byte, or_tail}
use poke.Ios.Read.Realign.{regroup}

-- The partial byte, at place `s + lastbyte_bits`, stands right above place `s + 8`.
pub place_msb :
    (c lastbyte_bits s : ℕ)
    → lastbyte_bits ≤ 8
    → c < 256
    → get_msb c lastbyte_bits * 2 ^ (s + lastbyte_bits) ≡ c / 2 ^ (8 - lastbyte_bits) * 2 ^ (8 + s)
place_msb c lastbyte_bits s h hc =
    let d = 2 ^ (8 - lastbyte_bits) in
    let e : 8 + s ≡ 8 - lastbyte_bits + (s + lastbyte_bits) = omega arith in
    ap (λ x. x * 2 ^ (s + lastbyte_bits)) (get_msb-eq c lastbyte_bits hc)
    ∙ mul_assoc (c / d) d (2 ^ (s + lastbyte_bits))
    ∙ ap (λ x. c / d * x)
        (sym (pow-add (8 - lastbyte_bits) (s + lastbyte_bits)) ∙ sym (ap (λ x. 2 ^ x) e))

module _ (bits lastbyte_bits : ℕ) (last : lastbyte_bits ≤ 8) where
  pub read_case_1-aligned :
      (c0 c1 : ℕ) (h0 : c0 < 256) (h1 : c1 < 256)
      → 8 < bits
      → read_case_1 lsb 0 bits lastbyte_bits c0 c1 ≡ c0 + 256 * (c1 / 2 ^ (8 - lastbyte_bits))
  unfolding read_case_1
  read_case_1-aligned c0 c1 h0 h1 wide = rw (let e : leb bits 8 ≡ false = ground arith in e) (
      or_tail (c1 / 2 ^ (8 - lastbyte_bits)) c0 8
        (shl_int-exact 8 (get_msb c1 lastbyte_bits) lastbyte_bits (get_msb-lt c1 lastbyte_bits h1)
            (omega arith)
          ∙ (let e : get_msb c1 lastbyte_bits * 2 ^ (0 + lastbyte_bits)
                  ≡ get_msb c1 lastbyte_bits * 2 ^ lastbyte_bits =
                ap (λ x. get_msb c1 lastbyte_bits * 2 ^ x) (omega arith) in
              sym e)
          ∙ place_msb c1 lastbyte_bits 0 last h1)
        h0
      ∙ omega arith)

  -- Eight bits at most: no byte order is involved.
  pub read_case_1-lsb_0 :
      (off c0 c1 : ℕ)
      → bits ≤ 8
      → read_case_1 lsb off bits lastbyte_bits c0 c1 ≡ read_case_1 msb off bits lastbyte_bits c0 c1
  unfolding read_case_1
  read_case_1-lsb_0 off c0 c1 narrow = rw (let e : leb bits 8 ≡ true = ground arith in e)

  pub read_case_1-lsb_1 :
      (off c0 c1 f0 p r : ℕ) (h0 : c0 < 2 ^ (8 - off)) (h1 : c1 < 256) (g0 : f0 < 256)
      → p < 2 ^ r
      → r < 8
      → 0 < r
      → off < 8
      → off ≢ 0
      → bits ≡ 8 + r
      → off + bits ≡ 8 + lastbyte_bits
      → c0 * 2 ^ lastbyte_bits + c1 / 2 ^ (8 - lastbyte_bits) ≡ f0 * 2 ^ r + p
      → read_case_1 lsb off bits lastbyte_bits c0 c1 ≡ f0 + 256 * p
  unfolding read_case_1
  read_case_1-lsb_1 off c0 c1 f0 p r h0 h1 g0 group narrow some_bits at unaligned width span value =
      let last_byte = p * 2 ^ (8 - r) in
      let last_byte-lt : last_byte < 256 = omega (
        arith,
        mul-pow-lt r (8 - r) p group,
        ap (λ (x : ℕ). 2 ^ x) (let e : r + (8 - r) ≡ 8 = omega arith in e),
      ) in
      let reg : (shl_int c0 (8 + off) ||| shl_int (get_msb c1 lastbyte_bits) off)
          ≡ (f0 * 256 + last_byte) * 2 ^ 0 =
        regroup off 0 c0 c1 lastbyte_bits f0 p r _ last (omega arith) h1 value (omega arith) (
          or_byte c0 (get_msb c1 lastbyte_bits) off (8 + off)
            (shl_int-exact (8 - off) c0 (8 + off) h0 (omega arith))
            (shl_int-exact 8 (get_msb c1 lastbyte_bits) off (get_msb-lt c1 lastbyte_bits h1)
              (omega arith))
            refl (get_msb-lt c1 lastbyte_bits h1)) in
      let low : shl64 last_byte (bits % 8) ≡ p * 2 ^ 8 =
        shl64-exact 8 last_byte (bits % 8) last_byte-lt (omega arith)
        ∙ mul_assoc p (2 ^ (8 - r)) (2 ^ (bits % 8))
        ∙ ap (λ x. p * x)
            (sym (pow-add (8 - r) (bits % 8))
              ∙ ap (λ x. 2 ^ x) (let e : 8 - r + bits % 8 ≡ 8 = omega arith in e)) in
      rw
        (
          let e : leb bits 8 ≡ false = ground arith in e,
          let e : (off == 0) ≡ false = ground arith in e,
        )
        (ap (λ x. shl64 (x &&& 0xff) (bits % 8) ||| shr x 8) reg
          ∙ ap₂ (λ x y. shl64 x (bits % 8) ||| y)
              (bit_and_low 8 ((f0 * 256 + last_byte) * 1)
                ∙ (let e : (f0 * 256 + last_byte) * 1 % 256 ≡ last_byte = omega arith in e))
              (let e : (f0 * 256 + last_byte) * 1 / 256 ≡ f0 = omega arith in e)
          ∙ or_tail p f0 8 low g0
          ∙ omega arith)

  pub read_case_2-aligned :
      (c0 c1 c2 : ℕ) (h0 : c0 < 256) (h1 : c1 < 256) (h2 : c2 < 256)
      → read_case_2 lsb 0 bits lastbyte_bits c0 c1 c2
        ≡ c0 + 256 * (c1 + 256 * (c2 / 2 ^ (8 - lastbyte_bits)))
  unfolding read_case_2
  read_case_2-aligned c0 c1 c2 h0 h1 h2 =
      or_tail ((c2 / 2 ^ (8 - lastbyte_bits)) * 256 + c1) c0 8
        (or_byte (c2 / 2 ^ (8 - lastbyte_bits)) c1 8 16
          (shl_int-exact 8 (get_msb c2 lastbyte_bits) (8 + lastbyte_bits)
              (get_msb-lt c2 lastbyte_bits h2) (omega arith)
            ∙ place_msb c2 lastbyte_bits 8 last h2)
          (shl_int-exact 8 c1 8 h1 (omega arith)) (omega arith) h1)
        h0
      ∙ omega arith

  pub read_case_3-aligned :
      (c0 c1 c2 c3 : ℕ) (h0 : c0 < 256) (h1 : c1 < 256) (h2 : c2 < 256) (h3 : c3 < 256)
      → lastbyte_bits < 8
      → read_case_3 lsb 0 bits lastbyte_bits c0 c1 c2 c3
        ≡ c0 + 256 * (c1 + 256 * (c2 + 256 * (c3 / 2 ^ (8 - lastbyte_bits))))
  unfolding read_case_3
  read_case_3-aligned c0 c1 c2 c3 h0 h1 h2 h3 partial =
      or_tail (((c3 / 2 ^ (8 - lastbyte_bits)) * 256 + c2) * 256 + c1) c0 8
        (or_byte ((c3 / 2 ^ (8 - lastbyte_bits)) * 256 + c2) c1 8 16
          (or_byte (c3 / 2 ^ (8 - lastbyte_bits)) c2 16 24
            (shl_int-exact 8 (get_msb c3 lastbyte_bits) (16 + lastbyte_bits)
                (get_msb-lt c3 lastbyte_bits h3) (omega arith)
              ∙ place_msb c3 lastbyte_bits 16 last h3)
            (shl_int-exact 8 c2 16 h2 (omega arith)) (omega arith) h2)
          (shl_int-exact 8 c1 8 h1 (omega arith)) (omega arith) h1)
        h0
      ∙ omega arith

  pub read_case_4-aligned :
      (c0 c1 c2 c3 c4 : ℕ) (h0 : c0 < 256) (h1 : c1 < 256) (h2 : c2 < 256) (h3 : c3 < 256)
      (h4 : c4 < 256)
      → read_case_4 lsb 0 bits lastbyte_bits c0 c1 c2 c3 c4
        ≡ c0 + 256 * (c1 + 256 * (c2 + 256 * (c3 + 256 * (c4 / 2 ^ (8 - lastbyte_bits)))))
  unfolding read_case_4
  read_case_4-aligned c0 c1 c2 c3 c4 h0 h1 h2 h3 h4 =
      or_tail ((((c4 / 2 ^ (8 - lastbyte_bits)) * 256 + c3) * 256 + c2) * 256 + c1) c0 8
        (or_byte (((c4 / 2 ^ (8 - lastbyte_bits)) * 256 + c3) * 256 + c2) c1 8 16
          (or_byte ((c4 / 2 ^ (8 - lastbyte_bits)) * 256 + c3) c2 16 24
            (or_byte (c4 / 2 ^ (8 - lastbyte_bits)) c3 24 32
              (shl64-exact 8 (get_msb c4 lastbyte_bits) (24 + lastbyte_bits)
                  (get_msb-lt c4 lastbyte_bits h4) (omega arith)
                ∙ place_msb c4 lastbyte_bits 24 last h4)
              (shl64-exact 8 c3 24 h3 (omega arith)) (omega arith) h3)
            (shl_int-exact 8 c2 16 h2 (omega arith)) (omega arith) h2)
          (shl_int-exact 8 c1 8 h1 (omega arith)) (omega arith) h1)
        h0
      ∙ omega arith

  pub read_case_5-aligned :
      (c0 c1 c2 c3 c4 c5 : ℕ) (h0 : c0 < 256) (h1 : c1 < 256) (h2 : c2 < 256) (h3 : c3 < 256)
      (h4 : c4 < 256) (h5 : c5 < 256)
      → read_case_5 lsb 0 bits lastbyte_bits c0 c1 c2 c3 c4 c5
        ≡ c0
          + 256 * (c1 + 256 * (c2 + 256 * (c3 + 256 * (c4 + 256 * (c5 / 2 ^ (8 - lastbyte_bits))))))
  unfolding read_case_5
  read_case_5-aligned c0 c1 c2 c3 c4 c5 h0 h1 h2 h3 h4 h5 =
      or_tail (((((c5 / 2 ^ (8 - lastbyte_bits)) * 256 + c4) * 256 + c3) * 256 + c2) * 256 + c1) c0
        8
        (or_byte ((((c5 / 2 ^ (8 - lastbyte_bits)) * 256 + c4) * 256 + c3) * 256 + c2) c1 8 16
          (or_byte (((c5 / 2 ^ (8 - lastbyte_bits)) * 256 + c4) * 256 + c3) c2 16 24
            (or_byte ((c5 / 2 ^ (8 - lastbyte_bits)) * 256 + c4) c3 24 32
              (or_byte (c5 / 2 ^ (8 - lastbyte_bits)) c4 32 40
                (shl64-exact 8 (get_msb c5 lastbyte_bits) (32 + lastbyte_bits)
                    (get_msb-lt c5 lastbyte_bits h5) (omega arith)
                  ∙ place_msb c5 lastbyte_bits 32 last h5)
                (shl64-exact 8 c4 32 h4 (omega arith)) (omega arith) h4)
              (shl64-exact 8 c3 24 h3 (omega arith)) (omega arith) h3)
            (shl_int-exact 8 c2 16 h2 (omega arith)) (omega arith) h2)
          (shl_int-exact 8 c1 8 h1 (omega arith)) (omega arith) h1)
        h0
      ∙ omega arith

  pub read_case_6-aligned :
      (c0 c1 c2 c3 c4 c5 c6 : ℕ) (h0 : c0 < 256) (h1 : c1 < 256) (h2 : c2 < 256) (h3 : c3 < 256)
      (h4 : c4 < 256) (h5 : c5 < 256) (h6 : c6 < 256)
      → read_case_6 lsb 0 bits lastbyte_bits c0 c1 c2 c3 c4 c5 c6
        ≡ c0
          + 256
            * (c1
                + 256
                  * (c2
                      + 256
                        * (c3 + 256 * (c4 + 256 * (c5 + 256 * (c6 / 2 ^ (8 - lastbyte_bits)))))))
  unfolding read_case_6
  read_case_6-aligned c0 c1 c2 c3 c4 c5 c6 h0 h1 h2 h3 h4 h5 h6 =
      or_tail
        ((((((c6 / 2 ^ (8 - lastbyte_bits)) * 256 + c5) * 256 + c4) * 256 + c3) * 256 + c2) * 256
          + c1)
        c0 8
        (or_byte (((((c6 / 2 ^ (8 - lastbyte_bits)) * 256 + c5) * 256 + c4) * 256 + c3) * 256 + c2)
          c1 8 16
          (or_byte ((((c6 / 2 ^ (8 - lastbyte_bits)) * 256 + c5) * 256 + c4) * 256 + c3) c2 16 24
            (or_byte (((c6 / 2 ^ (8 - lastbyte_bits)) * 256 + c5) * 256 + c4) c3 24 32
              (or_byte ((c6 / 2 ^ (8 - lastbyte_bits)) * 256 + c5) c4 32 40
                (or_byte (c6 / 2 ^ (8 - lastbyte_bits)) c5 40 48
                  (shl64-exact 8 (get_msb c6 lastbyte_bits) (40 + lastbyte_bits)
                      (get_msb-lt c6 lastbyte_bits h6) (omega arith)
                    ∙ place_msb c6 lastbyte_bits 40 last h6)
                  (shl64-exact 8 c5 40 h5 (omega arith)) (omega arith) h5)
                (shl64-exact 8 c4 32 h4 (omega arith)) (omega arith) h4)
              (shl64-exact 8 c3 24 h3 (omega arith)) (omega arith) h3)
            (shl_int-exact 8 c2 16 h2 (omega arith)) (omega arith) h2)
          (shl_int-exact 8 c1 8 h1 (omega arith)) (omega arith) h1)
        h0
      ∙ omega arith

  pub read_case_7-aligned :
      (c0 c1 c2 c3 c4 c5 c6 c7 : ℕ) (h0 : c0 < 256) (h1 : c1 < 256) (h2 : c2 < 256) (h3 : c3 < 256)
      (h4 : c4 < 256) (h5 : c5 < 256) (h6 : c6 < 256) (h7 : c7 < 256)
      → read_case_7 lsb 0 bits lastbyte_bits c0 c1 c2 c3 c4 c5 c6 c7
        ≡ c0
          + 256
            * (c1
                + 256
                  * (c2
                      + 256
                        * (c3
                            + 256
                              * (c4
                                  + 256
                                    * (c5 + 256 * (c6 + 256 * (c7 / 2 ^ (8 - lastbyte_bits))))))))
  unfolding read_case_7
  read_case_7-aligned c0 c1 c2 c3 c4 c5 c6 c7 h0 h1 h2 h3 h4 h5 h6 h7 =
      or_tail
        (((((((c7 / 2 ^ (8 - lastbyte_bits)) * 256 + c6) * 256 + c5) * 256 + c4) * 256 + c3) * 256
              + c2)
            * 256
          + c1)
        c0 8
        (or_byte
          ((((((c7 / 2 ^ (8 - lastbyte_bits)) * 256 + c6) * 256 + c5) * 256 + c4) * 256 + c3) * 256
            + c2)
          c1 8 16
          (or_byte
            (((((c7 / 2 ^ (8 - lastbyte_bits)) * 256 + c6) * 256 + c5) * 256 + c4) * 256 + c3) c2 16
            24
            (or_byte ((((c7 / 2 ^ (8 - lastbyte_bits)) * 256 + c6) * 256 + c5) * 256 + c4) c3 24 32
              (or_byte (((c7 / 2 ^ (8 - lastbyte_bits)) * 256 + c6) * 256 + c5) c4 32 40
                (or_byte ((c7 / 2 ^ (8 - lastbyte_bits)) * 256 + c6) c5 40 48
                  (or_byte (c7 / 2 ^ (8 - lastbyte_bits)) c6 48 56
                    (shl64-exact 8 (get_msb c7 lastbyte_bits) (48 + lastbyte_bits)
                        (get_msb-lt c7 lastbyte_bits h7) (omega arith)
                      ∙ place_msb c7 lastbyte_bits 48 last h7)
                    (shl64-exact 8 c6 48 h6 (omega arith)) (omega arith) h6)
                  (shl64-exact 8 c5 40 h5 (omega arith)) (omega arith) h5)
                (shl64-exact 8 c4 32 h4 (omega arith)) (omega arith) h4)
              (shl64-exact 8 c3 24 h3 (omega arith)) (omega arith) h3)
            (shl_int-exact 8 c2 16 h2 (omega arith)) (omega arith) h2)
          (shl_int-exact 8 c1 8 h1 (omega arith)) (omega arith) h1)
        h0
      ∙ omega arith
