-- ===== src/Ios/Read/Msb.antt =====
-- The big endian branch of each case of the switch: the bytes in order.
use poke.Base.{ℕ, ◌+◌, ◌-◌, ◌*◌, ◌/◌, ◌^◌, ◌≤◌, ◌<◌, ◌≡◌, refl, ◌∙◌, ap₂, arith, bit_or}
use poke.Ios.Word.{msb, shl64-exact, shl_int-exact}
use poke.Ios.Read.Narrow.{read_case_1, read_case_2, read_case_3, read_case_4}
use poke.Ios.Read.Wide.{read_case_5, read_case_6, read_case_7, read_case_8}
use poke.Ios.Read.Concat.{or_byte, or_tail, shr-get_msb, last-lt}

-- `a` bits of the first byte are part of the field, and `lastbyte_bits` of the last one.
module _ (off bits lastbyte_bits a : ℕ) (last : lastbyte_bits ≤ 8) (first : a ≤ 8) where
  pub read_case_1-msb :
      (c0 c1 : ℕ) (h0 : c0 < 2 ^ a) (h1 : c1 < 256)
      → read_case_1 msb off bits lastbyte_bits c0 c1
        ≡ c0 * 2 ^ lastbyte_bits + c1 / 2 ^ (8 - lastbyte_bits)
  unfolding read_case_1
  read_case_1-msb c0 c1 h0 h1 =
      ap₂ bit_or (shl_int-exact a c0 lastbyte_bits h0 (omega arith))
        (shr-get_msb c1 lastbyte_bits last h1)
      ∙ or_tail (c0) (c1 / 2 ^ (8 - lastbyte_bits)) lastbyte_bits refl
          (last-lt c1 lastbyte_bits last h1)

  pub read_case_2-msb :
      (c0 c1 c2 : ℕ) (h0 : c0 < 2 ^ a) (h1 : c1 < 256) (h2 : c2 < 256)
      → read_case_2 msb off bits lastbyte_bits c0 c1 c2
        ≡ (c0 * 256 + c1) * 2 ^ lastbyte_bits + c2 / 2 ^ (8 - lastbyte_bits)
  unfolding read_case_2
  read_case_2-msb c0 c1 c2 h0 h1 h2 =
      ap₂ bit_or
        (or_byte (c0) c1 lastbyte_bits (8 + lastbyte_bits)
          (shl_int-exact a c0 (8 + lastbyte_bits) h0 (omega arith))
          (shl_int-exact 8 c1 lastbyte_bits h1 (omega arith)) (omega arith) h1)
        (shr-get_msb c2 lastbyte_bits last h2)
      ∙ or_tail ((c0) * 256 + c1) (c2 / 2 ^ (8 - lastbyte_bits)) lastbyte_bits refl
          (last-lt c2 lastbyte_bits last h2)

  pub read_case_3-msb :
      (c0 c1 c2 c3 : ℕ) (h0 : c0 < 2 ^ a) (h1 : c1 < 256) (h2 : c2 < 256) (h3 : c3 < 256)
      → a + lastbyte_bits ≤ 15
      → read_case_3 msb off bits lastbyte_bits c0 c1 c2 c3
        ≡ ((c0 * 256 + c1) * 256 + c2) * 2 ^ lastbyte_bits + c3 / 2 ^ (8 - lastbyte_bits)
  unfolding read_case_3
  read_case_3-msb c0 c1 c2 c3 h0 h1 h2 h3 low =
      ap₂ bit_or
        (or_byte ((c0) * 256 + c1) c2 lastbyte_bits (8 + lastbyte_bits)
          (or_byte (c0) c1 (8 + lastbyte_bits) (16 + lastbyte_bits)
            (shl_int-exact a c0 (16 + lastbyte_bits) h0 (omega arith))
            (shl_int-exact 8 c1 (8 + lastbyte_bits) h1 (omega arith)) (omega arith) h1)
          (shl_int-exact 8 c2 lastbyte_bits h2 (omega arith)) (omega arith) h2)
        (shr-get_msb c3 lastbyte_bits last h3)
      ∙ or_tail (((c0) * 256 + c1) * 256 + c2) (c3 / 2 ^ (8 - lastbyte_bits)) lastbyte_bits refl
          (last-lt c3 lastbyte_bits last h3)

  pub read_case_4-msb :
      (c0 c1 c2 c3 c4 : ℕ) (h0 : c0 < 2 ^ a) (h1 : c1 < 256) (h2 : c2 < 256) (h3 : c3 < 256)
      (h4 : c4 < 256)
      → read_case_4 msb off bits lastbyte_bits c0 c1 c2 c3 c4
        ≡ (((c0 * 256 + c1) * 256 + c2) * 256 + c3) * 2 ^ lastbyte_bits
          + c4 / 2 ^ (8 - lastbyte_bits)
  unfolding read_case_4
  read_case_4-msb c0 c1 c2 c3 c4 h0 h1 h2 h3 h4 =
      ap₂ bit_or
        (or_byte (((c0) * 256 + c1) * 256 + c2) c3 lastbyte_bits (8 + lastbyte_bits)
          (or_byte ((c0) * 256 + c1) c2 (8 + lastbyte_bits) (16 + lastbyte_bits)
            (or_byte (c0) c1 (16 + lastbyte_bits) (24 + lastbyte_bits)
              (shl64-exact a c0 (24 + lastbyte_bits) h0 (omega arith))
              (shl64-exact 8 c1 (16 + lastbyte_bits) h1 (omega arith)) (omega arith) h1)
            (shl_int-exact 8 c2 (8 + lastbyte_bits) h2 (omega arith)) (omega arith) h2)
          (shl_int-exact 8 c3 lastbyte_bits h3 (omega arith)) (omega arith) h3)
        (shr-get_msb c4 lastbyte_bits last h4)
      ∙ or_tail ((((c0) * 256 + c1) * 256 + c2) * 256 + c3) (c4 / 2 ^ (8 - lastbyte_bits))
          lastbyte_bits refl (last-lt c4 lastbyte_bits last h4)

  pub read_case_5-msb :
      (c0 c1 c2 c3 c4 c5 : ℕ) (h0 : c0 < 2 ^ a) (h1 : c1 < 256) (h2 : c2 < 256) (h3 : c3 < 256)
      (h4 : c4 < 256) (h5 : c5 < 256)
      → read_case_5 msb off bits lastbyte_bits c0 c1 c2 c3 c4 c5
        ≡ ((((c0 * 256 + c1) * 256 + c2) * 256 + c3) * 256 + c4) * 2 ^ lastbyte_bits
          + c5 / 2 ^ (8 - lastbyte_bits)
  unfolding read_case_5
  read_case_5-msb c0 c1 c2 c3 c4 c5 h0 h1 h2 h3 h4 h5 =
      ap₂ bit_or
        (or_byte ((((c0) * 256 + c1) * 256 + c2) * 256 + c3) c4 lastbyte_bits (8 + lastbyte_bits)
          (or_byte (((c0) * 256 + c1) * 256 + c2) c3 (8 + lastbyte_bits) (16 + lastbyte_bits)
            (or_byte ((c0) * 256 + c1) c2 (16 + lastbyte_bits) (24 + lastbyte_bits)
              (or_byte (c0) c1 (24 + lastbyte_bits) (32 + lastbyte_bits)
                (shl64-exact a c0 (32 + lastbyte_bits) h0 (omega arith))
                (shl64-exact 8 c1 (24 + lastbyte_bits) h1 (omega arith)) (omega arith) h1)
              (shl64-exact 8 c2 (16 + lastbyte_bits) h2 (omega arith)) (omega arith) h2)
            (shl_int-exact 8 c3 (8 + lastbyte_bits) h3 (omega arith)) (omega arith) h3)
          (shl_int-exact 8 c4 lastbyte_bits h4 (omega arith)) (omega arith) h4)
        (shr-get_msb c5 lastbyte_bits last h5)
      ∙ or_tail (((((c0) * 256 + c1) * 256 + c2) * 256 + c3) * 256 + c4)
          (c5 / 2 ^ (8 - lastbyte_bits)) lastbyte_bits refl (last-lt c5 lastbyte_bits last h5)

  pub read_case_6-msb :
      (c0 c1 c2 c3 c4 c5 c6 : ℕ) (h0 : c0 < 2 ^ a) (h1 : c1 < 256) (h2 : c2 < 256) (h3 : c3 < 256)
      (h4 : c4 < 256) (h5 : c5 < 256) (h6 : c6 < 256)
      → read_case_6 msb off bits lastbyte_bits c0 c1 c2 c3 c4 c5 c6
        ≡ (((((c0 * 256 + c1) * 256 + c2) * 256 + c3) * 256 + c4) * 256 + c5) * 2 ^ lastbyte_bits
          + c6 / 2 ^ (8 - lastbyte_bits)
  unfolding read_case_6
  read_case_6-msb c0 c1 c2 c3 c4 c5 c6 h0 h1 h2 h3 h4 h5 h6 =
      ap₂ bit_or
        (or_byte (((((c0) * 256 + c1) * 256 + c2) * 256 + c3) * 256 + c4) c5 lastbyte_bits
          (8 + lastbyte_bits)
          (or_byte ((((c0) * 256 + c1) * 256 + c2) * 256 + c3) c4 (8 + lastbyte_bits)
            (16 + lastbyte_bits)
            (or_byte (((c0) * 256 + c1) * 256 + c2) c3 (16 + lastbyte_bits) (24 + lastbyte_bits)
              (or_byte ((c0) * 256 + c1) c2 (24 + lastbyte_bits) (32 + lastbyte_bits)
                (or_byte (c0) c1 (32 + lastbyte_bits) (40 + lastbyte_bits)
                  (shl64-exact a c0 (40 + lastbyte_bits) h0 (omega arith))
                  (shl64-exact 8 c1 (32 + lastbyte_bits) h1 (omega arith)) (omega arith) h1)
                (shl64-exact 8 c2 (24 + lastbyte_bits) h2 (omega arith)) (omega arith) h2)
              (shl64-exact 8 c3 (16 + lastbyte_bits) h3 (omega arith)) (omega arith) h3)
            (shl_int-exact 8 c4 (8 + lastbyte_bits) h4 (omega arith)) (omega arith) h4)
          (shl_int-exact 8 c5 lastbyte_bits h5 (omega arith)) (omega arith) h5)
        (shr-get_msb c6 lastbyte_bits last h6)
      ∙ or_tail ((((((c0) * 256 + c1) * 256 + c2) * 256 + c3) * 256 + c4) * 256 + c5)
          (c6 / 2 ^ (8 - lastbyte_bits)) lastbyte_bits refl (last-lt c6 lastbyte_bits last h6)

  pub read_case_7-msb :
      (c0 c1 c2 c3 c4 c5 c6 c7 : ℕ) (h0 : c0 < 2 ^ a) (h1 : c1 < 256) (h2 : c2 < 256)
      (h3 : c3 < 256) (h4 : c4 < 256) (h5 : c5 < 256) (h6 : c6 < 256) (h7 : c7 < 256)
      → read_case_7 msb off bits lastbyte_bits c0 c1 c2 c3 c4 c5 c6 c7
        ≡ ((((((c0 * 256 + c1) * 256 + c2) * 256 + c3) * 256 + c4) * 256 + c5) * 256 + c6)
            * 2 ^ lastbyte_bits
          + c7 / 2 ^ (8 - lastbyte_bits)
  unfolding read_case_7
  read_case_7-msb c0 c1 c2 c3 c4 c5 c6 c7 h0 h1 h2 h3 h4 h5 h6 h7 =
      ap₂ bit_or
        (or_byte ((((((c0) * 256 + c1) * 256 + c2) * 256 + c3) * 256 + c4) * 256 + c5) c6
          lastbyte_bits (8 + lastbyte_bits)
          (or_byte (((((c0) * 256 + c1) * 256 + c2) * 256 + c3) * 256 + c4) c5 (8 + lastbyte_bits)
            (16 + lastbyte_bits)
            (or_byte ((((c0) * 256 + c1) * 256 + c2) * 256 + c3) c4 (16 + lastbyte_bits)
              (24 + lastbyte_bits)
              (or_byte (((c0) * 256 + c1) * 256 + c2) c3 (24 + lastbyte_bits) (32 + lastbyte_bits)
                (or_byte ((c0) * 256 + c1) c2 (32 + lastbyte_bits) (40 + lastbyte_bits)
                  (or_byte (c0) c1 (40 + lastbyte_bits) (48 + lastbyte_bits)
                    (shl64-exact a c0 (48 + lastbyte_bits) h0 (omega arith))
                    (shl64-exact 8 c1 (40 + lastbyte_bits) h1 (omega arith)) (omega arith) h1)
                  (shl64-exact 8 c2 (32 + lastbyte_bits) h2 (omega arith)) (omega arith) h2)
                (shl64-exact 8 c3 (24 + lastbyte_bits) h3 (omega arith)) (omega arith) h3)
              (shl64-exact 8 c4 (16 + lastbyte_bits) h4 (omega arith)) (omega arith) h4)
            (shl_int-exact 8 c5 (8 + lastbyte_bits) h5 (omega arith)) (omega arith) h5)
          (shl_int-exact 8 c6 lastbyte_bits h6 (omega arith)) (omega arith) h6)
        (shr-get_msb c7 lastbyte_bits last h7)
      ∙ or_tail (((((((c0) * 256 + c1) * 256 + c2) * 256 + c3) * 256 + c4) * 256 + c5) * 256 + c6)
          (c7 / 2 ^ (8 - lastbyte_bits)) lastbyte_bits refl (last-lt c7 lastbyte_bits last h7)

  pub read_case_8-msb :
      (c0 c1 c2 c3 c4 c5 c6 c7 c8 : ℕ) (h0 : c0 < 2 ^ a) (h1 : c1 < 256) (h2 : c2 < 256)
      (h3 : c3 < 256) (h4 : c4 < 256) (h5 : c5 < 256) (h6 : c6 < 256) (h7 : c7 < 256)
      (h8 : c8 < 256)
      → a + lastbyte_bits ≤ 8
      → read_case_8 msb off bits lastbyte_bits c0 c1 c2 c3 c4 c5 c6 c7 c8
        ≡ (((((((c0 * 256 + c1) * 256 + c2) * 256 + c3) * 256 + c4) * 256 + c5) * 256 + c6) * 256
              + c7)
            * 2 ^ lastbyte_bits
          + c8 / 2 ^ (8 - lastbyte_bits)
  unfolding read_case_8
  read_case_8-msb c0 c1 c2 c3 c4 c5 c6 c7 c8 h0 h1 h2 h3 h4 h5 h6 h7 h8 low =
      ap₂ bit_or
        (or_byte (((((((c0) * 256 + c1) * 256 + c2) * 256 + c3) * 256 + c4) * 256 + c5) * 256 + c6)
          c7 lastbyte_bits (8 + lastbyte_bits)
          (or_byte ((((((c0) * 256 + c1) * 256 + c2) * 256 + c3) * 256 + c4) * 256 + c5) c6
            (8 + lastbyte_bits) (16 + lastbyte_bits)
            (or_byte (((((c0) * 256 + c1) * 256 + c2) * 256 + c3) * 256 + c4) c5
              (16 + lastbyte_bits) (24 + lastbyte_bits)
              (or_byte ((((c0) * 256 + c1) * 256 + c2) * 256 + c3) c4 (24 + lastbyte_bits)
                (32 + lastbyte_bits)
                (or_byte (((c0) * 256 + c1) * 256 + c2) c3 (32 + lastbyte_bits) (40 + lastbyte_bits)
                  (or_byte ((c0) * 256 + c1) c2 (40 + lastbyte_bits) (48 + lastbyte_bits)
                    (or_byte (c0) c1 (48 + lastbyte_bits) (56 + lastbyte_bits)
                      (shl64-exact a c0 (56 + lastbyte_bits) h0 (omega arith))
                      (shl64-exact 8 c1 (48 + lastbyte_bits) h1 (omega arith)) (omega arith) h1)
                    (shl64-exact 8 c2 (40 + lastbyte_bits) h2 (omega arith)) (omega arith) h2)
                  (shl64-exact 8 c3 (32 + lastbyte_bits) h3 (omega arith)) (omega arith) h3)
                (shl64-exact 8 c4 (24 + lastbyte_bits) h4 (omega arith)) (omega arith) h4)
              (shl64-exact 8 c5 (16 + lastbyte_bits) h5 (omega arith)) (omega arith) h5)
            (shl_int-exact 8 c6 (8 + lastbyte_bits) h6 (omega arith)) (omega arith) h6)
          (shl_int-exact 8 c7 lastbyte_bits h7 (omega arith)) (omega arith) h7)
        (shr-get_msb c8 lastbyte_bits last h8)
      ∙ or_tail
          ((((((((c0) * 256 + c1) * 256 + c2) * 256 + c3) * 256 + c4) * 256 + c5) * 256 + c6) * 256
            + c7)
          (c8 / 2 ^ (8 - lastbyte_bits)) lastbyte_bits refl (last-lt c8 lastbyte_bits last h8)
