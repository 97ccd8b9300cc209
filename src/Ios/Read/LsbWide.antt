-- ===== src/Ios/Read/LsbWide.antt =====
-- The little endian branches that are not byte-aligned, for each case of the switch and each number
-- of whole groups of eight bits that it can hold.
use native.Mathlib.Nat.{lt_of_lt_of_le, pow-le-pow_right}
use poke.Base.{
  ℕ, ◌+◌, ◌-◌, ◌*◌, ◌/◌, ◌^◌, ◌≤◌, ◌<◌, ◌≡◌, ◌≢◌, ◌∙◌, ap, arith, ◌==◌, leb, false, true,
}
use poke.Ios.Word.{lsb, bswap64, shl64-exact, shl_int-exact, get_msb, get_msb-lt}
use poke.Ios.Read.Wide.{read_case_5, read_case_6, read_case_7}
use poke.Ios.Read.Concat.{or_byte}
use poke.Ios.Read.Realign.{regroup, realigned, bswap_4, bswap_5, bswap_6, bswap_7}

module _ (off bits lastbyte_bits p r : ℕ) (last : lastbyte_bits ≤ 8) (at : off < 8)
    (unaligned : off ≢ 0) (group : p < 2 ^ r) (some_bits : 0 < r) (narrow : r ≤ 8) where
  off-ne-zero : (off == 0) ≡ false
  off-ne-zero = ground arith

  group-lt : p < 256
  group-lt = lt_of_lt_of_le group (pow-le-pow_right {n = 2} (omega arith) narrow)

  pub read_case_5-lsb_4 :
      (c0 c1 c2 c3 c4 c5 f0 f1 f2 f3 : ℕ) (h0 : c0 < 2 ^ (8 - off)) (h1 : c1 < 256) (h2 : c2 < 256)
      (h3 : c3 < 256) (h4 : c4 < 256) (h5 : c5 < 256) (g0 : f0 < 256) (g1 : f1 < 256)
      (g2 : f2 < 256) (g3 : f3 < 256)
      → bits ≡ 32 + r
      → off + bits ≡ 40 + lastbyte_bits
      → ((((c0 * 256 + c1) * 256 + c2) * 256 + c3) * 256 + c4) * 2 ^ lastbyte_bits
          + c5 / 2 ^ (8 - lastbyte_bits)
        ≡ (((f0 * 256 + f1) * 256 + f2) * 256 + f3) * 2 ^ r + p
      → read_case_5 lsb off bits lastbyte_bits c0 c1 c2 c3 c4 c5
        ≡ f0 + 256 * (f1 + 256 * (f2 + 256 * (f3 + 256 * p)))
  unfolding read_case_5
  read_case_5-lsb_4 c0 c1 c2 c3 c4 c5 f0 f1 f2 f3 h0 h1 h2 h3 h4 h5 g0 g1 g2 g3 width span value =
      rw (off-ne-zero, (let e : leb bits 40 ≡ true = ground arith in e))
        (ap bswap64 (
            realigned 4 24 ((((f0 * 256 + f1) * 256 + f2) * 256 + f3)) p r _ (40 - bits)
              (omega arith) group narrow (omega arith)
              (regroup (16 + off) 24 (((((c0 * 256 + c1) * 256 + c2) * 256 + c3) * 256 + c4)) c5
                lastbyte_bits ((((f0 * 256 + f1) * 256 + f2) * 256 + f3)) p r _ last narrow h5 value
                (omega arith)
                (or_byte (((((c0) * 256 + c1) * 256 + c2) * 256 + c3) * 256 + c4)
                  (get_msb c5 lastbyte_bits) (16 + off) (24 + off)
                  (or_byte ((((c0) * 256 + c1) * 256 + c2) * 256 + c3) c4 (24 + off) (32 + off)
                    (or_byte (((c0) * 256 + c1) * 256 + c2) c3 (32 + off) (40 + off)
                      (or_byte ((c0) * 256 + c1) c2 (40 + off) (48 + off)
                        (or_byte (c0) c1 (48 + off) (56 + off)
                          (shl64-exact (8 - off) c0 (56 + off) h0 (omega arith))
                          (shl64-exact 8 c1 (48 + off) h1 (omega arith)) (omega arith) h1)
                        (shl64-exact 8 c2 (40 + off) h2 (omega arith)) (omega arith) h2)
                      (shl64-exact 8 c3 (32 + off) h3 (omega arith)) (omega arith) h3)
                    (shl64-exact 8 c4 (24 + off) h4 (omega arith)) (omega arith) h4)
                  (shl_int-exact 8 (get_msb c5 lastbyte_bits) (16 + off)
                    (get_msb-lt c5 lastbyte_bits h5) (omega arith))
                  (omega arith) (get_msb-lt c5 lastbyte_bits h5))))
          ∙ bswap_4 f0 f1 f2 f3 p g0 g1 g2 g3 group-lt)

  pub read_case_5-lsb_5 :
      (c0 c1 c2 c3 c4 c5 f0 f1 f2 f3 f4 : ℕ) (h0 : c0 < 2 ^ (8 - off)) (h1 : c1 < 256)
      (h2 : c2 < 256) (h3 : c3 < 256) (h4 : c4 < 256) (h5 : c5 < 256) (g0 : f0 < 256)
      (g1 : f1 < 256) (g2 : f2 < 256) (g3 : f3 < 256) (g4 : f4 < 256)
      → bits ≡ 40 + r
      → off + bits ≡ 40 + lastbyte_bits
      → ((((c0 * 256 + c1) * 256 + c2) * 256 + c3) * 256 + c4) * 2 ^ lastbyte_bits
          + c5 / 2 ^ (8 - lastbyte_bits)
        ≡ ((((f0 * 256 + f1) * 256 + f2) * 256 + f3) * 256 + f4) * 2 ^ r + p
      → read_case_5 lsb off bits lastbyte_bits c0 c1 c2 c3 c4 c5
        ≡ f0 + 256 * (f1 + 256 * (f2 + 256 * (f3 + 256 * (f4 + 256 * p))))
  unfolding read_case_5
  read_case_5-lsb_5 c0 c1 c2 c3 c4 c5 f0 f1 f2 f3 f4 h0 h1 h2 h3 h4 h5 g0 g1 g2 g3 g4 width span
        value =
      rw (off-ne-zero, (let e : leb bits 40 ≡ false = ground arith in e))
        (ap bswap64 (
            realigned 5 16 (((((f0 * 256 + f1) * 256 + f2) * 256 + f3) * 256 + f4)) p r _
              (48 - bits) (omega arith) group narrow (omega arith)
              (regroup (16 + off) 16 (((((c0 * 256 + c1) * 256 + c2) * 256 + c3) * 256 + c4)) c5
                lastbyte_bits (((((f0 * 256 + f1) * 256 + f2) * 256 + f3) * 256 + f4)) p r _ last
                narrow h5 value (omega arith)
                (or_byte (((((c0) * 256 + c1) * 256 + c2) * 256 + c3) * 256 + c4)
                  (get_msb c5 lastbyte_bits) (16 + off) (24 + off)
                  (or_byte ((((c0) * 256 + c1) * 256 + c2) * 256 + c3) c4 (24 + off) (32 + off)
                    (or_byte (((c0) * 256 + c1) * 256 + c2) c3 (32 + off) (40 + off)
                      (or_byte ((c0) * 256 + c1) c2 (40 + off) (48 + off)
                        (or_byte (c0) c1 (48 + off) (56 + off)
                          (shl64-exact (8 - off) c0 (56 + off) h0 (omega arith))
                          (shl64-exact 8 c1 (48 + off) h1 (omega arith)) (omega arith) h1)
                        (shl64-exact 8 c2 (40 + off) h2 (omega arith)) (omega arith) h2)
                      (shl64-exact 8 c3 (32 + off) h3 (omega arith)) (omega arith) h3)
                    (shl64-exact 8 c4 (24 + off) h4 (omega arith)) (omega arith) h4)
                  (shl_int-exact 8 (get_msb c5 lastbyte_bits) (16 + off)
                    (get_msb-lt c5 lastbyte_bits h5) (omega arith))
                  (omega arith) (get_msb-lt c5 lastbyte_bits h5))))
          ∙ bswap_5 f0 f1 f2 f3 f4 p g0 g1 g2 g3 g4 group-lt)

  pub read_case_6-lsb_5 :
      (c0 c1 c2 c3 c4 c5 c6 f0 f1 f2 f3 f4 : ℕ) (h0 : c0 < 2 ^ (8 - off)) (h1 : c1 < 256)
      (h2 : c2 < 256) (h3 : c3 < 256) (h4 : c4 < 256) (h5 : c5 < 256) (h6 : c6 < 256)
      (g0 : f0 < 256) (g1 : f1 < 256) (g2 : f2 < 256) (g3 : f3 < 256) (g4 : f4 < 256)
      → bits ≡ 40 + r
      → off + bits ≡ 48 + lastbyte_bits
      → (((((c0 * 256 + c1) * 256 + c2) * 256 + c3) * 256 + c4) * 256 + c5) * 2 ^ lastbyte_bits
          + c6 / 2 ^ (8 - lastbyte_bits)
        ≡ ((((f0 * 256 + f1) * 256 + f2) * 256 + f3) * 256 + f4) * 2 ^ r + p
      → read_case_6 lsb off bits lastbyte_bits c0 c1 c2 c3 c4 c5 c6
        ≡ f0 + 256 * (f1 + 256 * (f2 + 256 * (f3 + 256 * (f4 + 256 * p))))
  unfolding read_case_6
  read_case_6-lsb_5 c0 c1 c2 c3 c4 c5 c6 f0 f1 f2 f3 f4 h0 h1 h2 h3 h4 h5 h6 g0 g1 g2 g3 g4 width
        span value =
      rw (off-ne-zero, (let e : leb bits 48 ≡ true = ground arith in e))
        (ap bswap64 (
            realigned 5 16 (((((f0 * 256 + f1) * 256 + f2) * 256 + f3) * 256 + f4)) p r _
              (48 - bits) (omega arith) group narrow (omega arith)
              (regroup (8 + off) 16
                ((((((c0 * 256 + c1) * 256 + c2) * 256 + c3) * 256 + c4) * 256 + c5)) c6
                lastbyte_bits (((((f0 * 256 + f1) * 256 + f2) * 256 + f3) * 256 + f4)) p r _ last
                narrow h6 value (omega arith)
                (or_byte ((((((c0) * 256 + c1) * 256 + c2) * 256 + c3) * 256 + c4) * 256 + c5)
                  (get_msb c6 lastbyte_bits) (8 + off) (16 + off)
                  (or_byte (((((c0) * 256 + c1) * 256 + c2) * 256 + c3) * 256 + c4) c5 (16 + off)
                    (24 + off)
                    (or_byte ((((c0) * 256 + c1) * 256 + c2) * 256 + c3) c4 (24 + off) (32 + off)
                      (or_byte (((c0) * 256 + c1) * 256 + c2) c3 (32 + off) (40 + off)
                        (or_byte ((c0) * 256 + c1) c2 (40 + off) (48 + off)
                          (or_byte (c0) c1 (48 + off) (56 + off)
                            (shl64-exact (8 - off) c0 (56 + off) h0 (omega arith))
                            (shl64-exact 8 c1 (48 + off) h1 (omega arith)) (omega arith) h1)
                          (shl64-exact 8 c2 (40 + off) h2 (omega arith)) (omega arith) h2)
                        (shl64-exact 8 c3 (32 + off) h3 (omega arith)) (omega arith) h3)
                      (shl64-exact 8 c4 (24 + off) h4 (omega arith)) (omega arith) h4)
                    (shl_int-exact 8 c5 (16 + off) h5 (omega arith)) (omega arith) h5)
                  (shl_int-exact 8 (get_msb c6 lastbyte_bits) (8 + off)
                    (get_msb-lt c6 lastbyte_bits h6) (omega arith))
                  (omega arith) (get_msb-lt c6 lastbyte_bits h6))))
          ∙ bswap_5 f0 f1 f2 f3 f4 p g0 g1 g2 g3 g4 group-lt)

  pub read_case_6-lsb_6 :
      (c0 c1 c2 c3 c4 c5 c6 f0 f1 f2 f3 f4 f5 : ℕ) (h0 : c0 < 2 ^ (8 - off)) (h1 : c1 < 256)
      (h2 : c2 < 256) (h3 : c3 < 256) (h4 : c4 < 256) (h5 : c5 < 256) (h6 : c6 < 256)
      (g0 : f0 < 256) (g1 : f1 < 256) (g2 : f2 < 256) (g3 : f3 < 256) (g4 : f4 < 256)
      (g5 : f5 < 256)
      → bits ≡ 48 + r
      → off + bits ≡ 48 + lastbyte_bits
      → (((((c0 * 256 + c1) * 256 + c2) * 256 + c3) * 256 + c4) * 256 + c5) * 2 ^ lastbyte_bits
          + c6 / 2 ^ (8 - lastbyte_bits)
        ≡ (((((f0 * 256 + f1) * 256 + f2) * 256 + f3) * 256 + f4) * 256 + f5) * 2 ^ r + p
      → read_case_6 lsb off bits lastbyte_bits c0 c1 c2 c3 c4 c5 c6
        ≡ f0 + 256 * (f1 + 256 * (f2 + 256 * (f3 + 256 * (f4 + 256 * (f5 + 256 * p)))))
  unfolding read_case_6
  read_case_6-lsb_6 c0 c1 c2 c3 c4 c5 c6 f0 f1 f2 f3 f4 f5 h0 h1 h2 h3 h4 h5 h6 g0 g1 g2 g3 g4 g5
        width span value =
      rw (off-ne-zero, (let e : leb bits 48 ≡ false = ground arith in e))
        (ap bswap64 (
            realigned 6 8 ((((((f0 * 256 + f1) * 256 + f2) * 256 + f3) * 256 + f4) * 256 + f5)) p r
              _ (56 - bits) (omega arith) group narrow (omega arith)
              (regroup (8 + off) 8
                ((((((c0 * 256 + c1) * 256 + c2) * 256 + c3) * 256 + c4) * 256 + c5)) c6
                lastbyte_bits ((((((f0 * 256 + f1) * 256 + f2) * 256 + f3) * 256 + f4) * 256 + f5))
                p r _ last narrow h6 value (omega arith)
                (or_byte ((((((c0) * 256 + c1) * 256 + c2) * 256 + c3) * 256 + c4) * 256 + c5)
                  (get_msb c6 lastbyte_bits) (8 + off) (16 + off)
                  (or_byte (((((c0) * 256 + c1) * 256 + c2) * 256 + c3) * 256 + c4) c5 (16 + off)
                    (24 + off)
                    (or_byte ((((c0) * 256 + c1) * 256 + c2) * 256 + c3) c4 (24 + off) (32 + off)
                      (or_byte (((c0) * 256 + c1) * 256 + c2) c3 (32 + off) (40 + off)
                        (or_byte ((c0) * 256 + c1) c2 (40 + off) (48 + off)
                          (or_byte (c0) c1 (48 + off) (56 + off)
                            (shl64-exact (8 - off) c0 (56 + off) h0 (omega arith))
                            (shl64-exact 8 c1 (48 + off) h1 (omega arith)) (omega arith) h1)
                          (shl64-exact 8 c2 (40 + off) h2 (omega arith)) (omega arith) h2)
                        (shl64-exact 8 c3 (32 + off) h3 (omega arith)) (omega arith) h3)
                      (shl64-exact 8 c4 (24 + off) h4 (omega arith)) (omega arith) h4)
                    (shl_int-exact 8 c5 (16 + off) h5 (omega arith)) (omega arith) h5)
                  (shl_int-exact 8 (get_msb c6 lastbyte_bits) (8 + off)
                    (get_msb-lt c6 lastbyte_bits h6) (omega arith))
                  (omega arith) (get_msb-lt c6 lastbyte_bits h6))))
          ∙ bswap_6 f0 f1 f2 f3 f4 f5 p g0 g1 g2 g3 g4 g5 group-lt)

  pub read_case_7-lsb_6 :
      (c0 c1 c2 c3 c4 c5 c6 c7 f0 f1 f2 f3 f4 f5 : ℕ) (h0 : c0 < 2 ^ (8 - off)) (h1 : c1 < 256)
      (h2 : c2 < 256) (h3 : c3 < 256) (h4 : c4 < 256) (h5 : c5 < 256) (h6 : c6 < 256)
      (h7 : c7 < 256) (g0 : f0 < 256) (g1 : f1 < 256) (g2 : f2 < 256) (g3 : f3 < 256)
      (g4 : f4 < 256) (g5 : f5 < 256)
      → bits ≡ 48 + r
      → off + bits ≡ 56 + lastbyte_bits
      → ((((((c0 * 256 + c1) * 256 + c2) * 256 + c3) * 256 + c4) * 256 + c5) * 256 + c6)
            * 2 ^ lastbyte_bits
          + c7 / 2 ^ (8 - lastbyte_bits)
        ≡ (((((f0 * 256 + f1) * 256 + f2) * 256 + f3) * 256 + f4) * 256 + f5) * 2 ^ r + p
      → read_case_7 lsb off bits lastbyte_bits c0 c1 c2 c3 c4 c5 c6 c7
        ≡ f0 + 256 * (f1 + 256 * (f2 + 256 * (f3 + 256 * (f4 + 256 * (f5 + 256 * p)))))
  unfolding read_case_7
  read_case_7-lsb_6 c0 c1 c2 c3 c4 c5 c6 c7 f0 f1 f2 f3 f4 f5 h0 h1 h2 h3 h4 h5 h6 h7 g0 g1 g2 g3 g4
        g5 width span value =
      rw (off-ne-zero, (let e : leb bits 56 ≡ true = ground arith in e))
        (ap bswap64 (
            realigned 6 8 ((((((f0 * 256 + f1) * 256 + f2) * 256 + f3) * 256 + f4) * 256 + f5)) p r
              _ (56 - bits) (omega arith) group narrow (omega arith)
              (regroup off 8
                (((((((c0 * 256 + c1) * 256 + c2) * 256 + c3) * 256 + c4) * 256 + c5) * 256 + c6))
                c7 lastbyte_bits
                ((((((f0 * 256 + f1) * 256 + f2) * 256 + f3) * 256 + f4) * 256 + f5)) p r _ last
                narrow h7 value (omega arith)
                (or_byte
                  (((((((c0) * 256 + c1) * 256 + c2) * 256 + c3) * 256 + c4) * 256 + c5) * 256 + c6)
                  (get_msb c7 lastbyte_bits) off (8 + off)
                  (or_byte ((((((c0) * 256 + c1) * 256 + c2) * 256 + c3) * 256 + c4) * 256 + c5) c6
                    (8 + off) (16 + off)
                    (or_byte (((((c0) * 256 + c1) * 256 + c2) * 256 + c3) * 256 + c4) c5 (16 + off)
                      (24 + off)
                      (or_byte ((((c0) * 256 + c1) * 256 + c2) * 256 + c3) c4 (24 + off) (32 + off)
                        (or_byte (((c0) * 256 + c1) * 256 + c2) c3 (32 + off) (40 + off)
                          (or_byte ((c0) * 256 + c1) c2 (40 + off) (48 + off)
                            (or_byte (c0) c1 (48 + off) (56 + off)
                              (shl64-exact (8 - off) c0 (56 + off) h0 (omega arith))
                              (shl64-exact 8 c1 (48 + off) h1 (omega arith)) (omega arith) h1)
                            (shl64-exact 8 c2 (40 + off) h2 (omega arith)) (omega arith) h2)
                          (shl64-exact 8 c3 (32 + off) h3 (omega arith)) (omega arith) h3)
                        (shl64-exact 8 c4 (24 + off) h4 (omega arith)) (omega arith) h4)
                      (shl_int-exact 8 c5 (16 + off) h5 (omega arith)) (omega arith) h5)
                    (shl_int-exact 8 c6 (8 + off) h6 (omega arith)) (omega arith) h6)
                  (shl_int-exact 8 (get_msb c7 lastbyte_bits) off (get_msb-lt c7 lastbyte_bits h7)
                    (omega arith))
                  (omega arith) (get_msb-lt c7 lastbyte_bits h7))))
          ∙ bswap_6 f0 f1 f2 f3 f4 f5 p g0 g1 g2 g3 g4 g5 group-lt)

  pub read_case_7-lsb_7 :
      (c0 c1 c2 c3 c4 c5 c6 c7 f0 f1 f2 f3 f4 f5 f6 : ℕ) (h0 : c0 < 2 ^ (8 - off)) (h1 : c1 < 256)
      (h2 : c2 < 256) (h3 : c3 < 256) (h4 : c4 < 256) (h5 : c5 < 256) (h6 : c6 < 256)
      (h7 : c7 < 256) (g0 : f0 < 256) (g1 : f1 < 256) (g2 : f2 < 256) (g3 : f3 < 256)
      (g4 : f4 < 256) (g5 : f5 < 256) (g6 : f6 < 256)
      → bits ≡ 56 + r
      → off + bits ≡ 56 + lastbyte_bits
      → ((((((c0 * 256 + c1) * 256 + c2) * 256 + c3) * 256 + c4) * 256 + c5) * 256 + c6)
            * 2 ^ lastbyte_bits
          + c7 / 2 ^ (8 - lastbyte_bits)
        ≡ ((((((f0 * 256 + f1) * 256 + f2) * 256 + f3) * 256 + f4) * 256 + f5) * 256 + f6) * 2 ^ r
          + p
      → read_case_7 lsb off bits lastbyte_bits c0 c1 c2 c3 c4 c5 c6 c7
        ≡ f0 + 256 * (f1 + 256 * (f2 + 256 * (f3 + 256 * (f4 + 256 * (f5 + 256 * (f6 + 256 * p))))))
  unfolding read_case_7
  read_case_7-lsb_7 c0 c1 c2 c3 c4 c5 c6 c7 f0 f1 f2 f3 f4 f5 f6 h0 h1 h2 h3 h4 h5 h6 h7 g0 g1 g2 g3
        g4 g5 g6 width span value =
      rw (off-ne-zero, (let e : leb bits 56 ≡ false = ground arith in e))
        (ap bswap64 (
            realigned 7 0
              (((((((f0 * 256 + f1) * 256 + f2) * 256 + f3) * 256 + f4) * 256 + f5) * 256 + f6)) p r
              _ (64 - bits) (omega arith) group narrow (omega arith)
              (regroup off 0
                (((((((c0 * 256 + c1) * 256 + c2) * 256 + c3) * 256 + c4) * 256 + c5) * 256 + c6))
                c7 lastbyte_bits
                (((((((f0 * 256 + f1) * 256 + f2) * 256 + f3) * 256 + f4) * 256 + f5) * 256 + f6)) p
                r _ last narrow h7 value (omega arith)
                (or_byte
                  (((((((c0) * 256 + c1) * 256 + c2) * 256 + c3) * 256 + c4) * 256 + c5) * 256 + c6)
                  (get_msb c7 lastbyte_bits) off (8 + off)
                  (or_byte ((((((c0) * 256 + c1) * 256 + c2) * 256 + c3) * 256 + c4) * 256 + c5) c6
                    (8 + off) (16 + off)
                    (or_byte (((((c0) * 256 + c1) * 256 + c2) * 256 + c3) * 256 + c4) c5 (16 + off)
                      (24 + off)
                      (or_byte ((((c0) * 256 + c1) * 256 + c2) * 256 + c3) c4 (24 + off) (32 + off)
                        (or_byte (((c0) * 256 + c1) * 256 + c2) c3 (32 + off) (40 + off)
                          (or_byte ((c0) * 256 + c1) c2 (40 + off) (48 + off)
                            (or_byte (c0) c1 (48 + off) (56 + off)
                              (shl64-exact (8 - off) c0 (56 + off) h0 (omega arith))
                              (shl64-exact 8 c1 (48 + off) h1 (omega arith)) (omega arith) h1)
                            (shl64-exact 8 c2 (40 + off) h2 (omega arith)) (omega arith) h2)
                          (shl64-exact 8 c3 (32 + off) h3 (omega arith)) (omega arith) h3)
                        (shl64-exact 8 c4 (24 + off) h4 (omega arith)) (omega arith) h4)
                      (shl_int-exact 8 c5 (16 + off) h5 (omega arith)) (omega arith) h5)
                    (shl_int-exact 8 c6 (8 + off) h6 (omega arith)) (omega arith) h6)
                  (shl_int-exact 8 (get_msb c7 lastbyte_bits) off (get_msb-lt c7 lastbyte_bits h7)
                    (omega arith))
                  (omega arith) (get_msb-lt c7 lastbyte_bits h7))))
          ∙ bswap_7 f0 f1 f2 f3 f4 f5 f6 p g0 g1 g2 g3 g4 g5 g6 group-lt)
