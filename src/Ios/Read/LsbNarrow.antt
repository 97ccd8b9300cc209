-- ===== src/Ios/Read/LsbNarrow.antt =====
-- The little endian branches that are not byte-aligned, for each case of the switch and each number
-- of whole groups of eight bits that it can hold.
use native.Mathlib.Nat.{lt_of_lt_of_le, pow-le-pow_right}
use poke.Base.{
  ℕ, ◌+◌, ◌-◌, ◌*◌, ◌/◌, ◌^◌, ◌≤◌, ◌<◌, ◌≡◌, ◌≢◌, ◌∙◌, ap, arith, ◌==◌, leb, false, true,
}
use poke.Ios.Word.{lsb, bswap64, shl64-exact, get_msb, get_msb-lt}
use poke.Ios.Read.Narrow.{read_case_2, read_case_3, read_case_4}
use poke.Ios.Read.Concat.{or_byte}
use poke.Ios.Read.Realign.{regroup, realigned, bswap_1, bswap_2, bswap_3, bswap_4}

module _ (off bits lastbyte_bits p r : ℕ) (last : lastbyte_bits ≤ 8) (at : off < 8)
    (unaligned : off ≢ 0) (group : p < 2 ^ r) (some_bits : 0 < r) (narrow : r ≤ 8) where
  off-ne-zero : (off == 0) ≡ false
  off-ne-zero = ground arith

  group-lt : p < 256
  group-lt = lt_of_lt_of_le group (pow-le-pow_right {n = 2} (omega arith) narrow)

  pub read_case_2-lsb_1 :
      (c0 c1 c2 f0 : ℕ) (h0 : c0 < 2 ^ (8 - off)) (h1 : c1 < 256) (h2 : c2 < 256) (g0 : f0 < 256)
      → bits ≡ 8 + r
      → off + bits ≡ 16 + lastbyte_bits
      → (c0 * 256 + c1) * 2 ^ lastbyte_bits + c2 / 2 ^ (8 - lastbyte_bits) ≡ f0 * 2 ^ r + p
      → read_case_2 lsb off bits lastbyte_bits c0 c1 c2 ≡ f0 + 256 * p
  unfolding read_case_2
  read_case_2-lsb_1 c0 c1 c2 f0 h0 h1 h2 g0 width span value =
      rw (off-ne-zero, (let e : leb bits 16 ≡ true = ground arith in e))
        (ap bswap64 (
            realigned 1 48 (f0) p r _ (16 - bits) (omega arith) group narrow (omega arith) (
              regroup (40 + off) 48 ((c0 * 256 + c1)) c2 lastbyte_bits (f0) p r _ last narrow h2
                value (omega arith)
                (or_byte ((c0) * 256 + c1) (get_msb c2 lastbyte_bits) (40 + off) (48 + off)
                  (or_byte (c0) c1 (48 + off) (56 + off)
                    (shl64-exact (8 - off) c0 (56 + off) h0 (omega arith))
                    (shl64-exact 8 c1 (48 + off) h1 (omega arith)) (omega arith) h1)
                  (shl64-exact 8 (get_msb c2 lastbyte_bits) (40 + off)
                    (get_msb-lt c2 lastbyte_bits h2) (omega arith))
                  (omega arith) (get_msb-lt c2 lastbyte_bits h2))))
          ∙ bswap_1 f0 p g0 group-lt)

  pub read_case_2-lsb_2 :
      (c0 c1 c2 f0 f1 : ℕ) (h0 : c0 < 2 ^ (8 - off)) (h1 : c1 < 256) (h2 : c2 < 256) (g0 : f0 < 256)
      (g1 : f1 < 256)
      → bits ≡ 16 + r
      → off + bits ≡ 16 + lastbyte_bits
      → (c0 * 256 + c1) * 2 ^ lastbyte_bits + c2 / 2 ^ (8 - lastbyte_bits)
        ≡ (f0 * 256 + f1) * 2 ^ r + p
      → read_case_2 lsb off bits lastbyte_bits c0 c1 c2 ≡ f0 + 256 * (f1 + 256 * p)
  unfolding read_case_2
  read_case_2-lsb_2 c0 c1 c2 f0 f1 h0 h1 h2 g0 g1 width span value =
      rw (off-ne-zero, (let e : leb bits 16 ≡ false = ground arith in e))
        (ap bswap64 (
            realigned 2 40 ((f0 * 256 + f1)) p r _ (24 - bits) (omega arith) group narrow
              (omega arith)
              (regroup (40 + off) 40 ((c0 * 256 + c1)) c2 lastbyte_bits ((f0 * 256 + f1)) p r _ last
                narrow h2 value (omega arith)
                (or_byte ((c0) * 256 + c1) (get_msb c2 lastbyte_bits) (40 + off) (48 + off)
                  (or_byte (c0) c1 (48 + off) (56 + off)
                    (shl64-exact (8 - off) c0 (56 + off) h0 (omega arith))
                    (shl64-exact 8 c1 (48 + off) h1 (omega arith)) (omega arith) h1)
                  (shl64-exact 8 (get_msb c2 lastbyte_bits) (40 + off)
                    (get_msb-lt c2 lastbyte_bits h2) (omega arith))
                  (omega arith) (get_msb-lt c2 lastbyte_bits h2))))
          ∙ bswap_2 f0 f1 p g0 g1 group-lt)

  pub read_case_3-lsb_2 :
      (c0 c1 c2 c3 f0 f1 : ℕ) (h0 : c0 < 2 ^ (8 - off)) (h1 : c1 < 256) (h2 : c2 < 256)
      (h3 : c3 < 256) (g0 : f0 < 256) (g1 : f1 < 256)
      → bits ≡ 16 + r
      → off + bits ≡ 24 + lastbyte_bits
      → ((c0 * 256 + c1) * 256 + c2) * 2 ^ lastbyte_bits + c3 / 2 ^ (8 - lastbyte_bits)
        ≡ (f0 * 256 + f1) * 2 ^ r + p
      → read_case_3 lsb off bits lastbyte_bits c0 c1 c2 c3 ≡ f0 + 256 * (f1 + 256 * p)
  unfolding read_case_3
  read_case_3-lsb_2 c0 c1 c2 c3 f0 f1 h0 h1 h2 h3 g0 g1 width span value =
      rw (off-ne-zero, (let e : leb bits 24 ≡ true = ground arith in e))
        (ap bswap64 (
            realigned 2 40 ((f0 * 256 + f1)) p r _ (24 - bits) (omega arith) group narrow
              (omega arith)
              (regroup (32 + off) 40 (((c0 * 256 + c1) * 256 + c2)) c3 lastbyte_bits
                ((f0 * 256 + f1)) p r _ last narrow h3 value (omega arith)
                (or_byte (((c0) * 256 + c1) * 256 + c2) (get_msb c3 lastbyte_bits) (32 + off)
                  (40 + off)
                  (or_byte ((c0) * 256 + c1) c2 (40 + off) (48 + off)
                    (or_byte (c0) c1 (48 + off) (56 + off)
                      (shl64-exact (8 - off) c0 (56 + off) h0 (omega arith))
                      (shl64-exact 8 c1 (48 + off) h1 (omega arith)) (omega arith) h1)
                    (shl64-exact 8 c2 (40 + off) h2 (omega arith)) (omega arith) h2)
                  (shl64-exact 8 (get_msb c3 lastbyte_bits) (32 + off)
                    (get_msb-lt c3 lastbyte_bits h3) (omega arith))
                  (omega arith) (get_msb-lt c3 lastbyte_bits h3))))
          ∙ bswap_2 f0 f1 p g0 g1 group-lt)

  pub read_case_3-lsb_3 :
      (c0 c1 c2 c3 f0 f1 f2 : ℕ) (h0 : c0 < 2 ^ (8 - off)) (h1 : c1 < 256) (h2 : c2 < 256)
      (h3 : c3 < 256) (g0 : f0 < 256) (g1 : f1 < 256) (g2 : f2 < 256)
      → bits ≡ 24 + r
      → off + bits ≡ 24 + lastbyte_bits
      → ((c0 * 256 + c1) * 256 + c2) * 2 ^ lastbyte_bits + c3 / 2 ^ (8 - lastbyte_bits)
        ≡ ((f0 * 256 + f1) * 256 + f2) * 2 ^ r + p
      → read_case_3 lsb off bits lastbyte_bits c0 c1 c2 c3 ≡ f0 + 256 * (f1 + 256 * (f2 + 256 * p))
  unfolding read_case_3
  read_case_3-lsb_3 c0 c1 c2 c3 f0 f1 f2 h0 h1 h2 h3 g0 g1 g2 width span value =
      rw (off-ne-zero, (let e : leb bits 24 ≡ false = ground arith in e))
        (ap bswap64 (
            realigned 3 32 (((f0 * 256 + f1) * 256 + f2)) p r _ (32 - bits) (omega arith) group
              narrow (omega arith)
              (regroup (32 + off) 32 (((c0 * 256 + c1) * 256 + c2)) c3 lastbyte_bits
                (((f0 * 256 + f1) * 256 + f2)) p r _ last narrow h3 value (omega arith)
                (or_byte (((c0) * 256 + c1) * 256 + c2) (get_msb c3 lastbyte_bits) (32 + off)
                  (40 + off)
                  (or_byte ((c0) * 256 + c1) c2 (40 + off) (48 + off)
                    (or_byte (c0) c1 (48 + off) (56 + off)
                      (shl64-exact (8 - off) c0 (56 + off) h0 (omega arith))
                      (shl64-exact 8 c1 (48 + off) h1 (omega arith)) (omega arith) h1)
                    (shl64-exact 8 c2 (40 + off) h2 (omega arith)) (omega arith) h2)
                  (shl64-exact 8 (get_msb c3 lastbyte_bits) (32 + off)
                    (get_msb-lt c3 lastbyte_bits h3) (omega arith))
                  (omega arith) (get_msb-lt c3 lastbyte_bits h3))))
          ∙ bswap_3 f0 f1 f2 p g0 g1 g2 group-lt)

  pub read_case_4-lsb_3 :
      (c0 c1 c2 c3 c4 f0 f1 f2 : ℕ) (h0 : c0 < 2 ^ (8 - off)) (h1 : c1 < 256) (h2 : c2 < 256)
      (h3 : c3 < 256) (h4 : c4 < 256) (g0 : f0 < 256) (g1 : f1 < 256) (g2 : f2 < 256)
      → bits ≡ 24 + r
      → off + bits ≡ 32 + lastbyte_bits
      → (((c0 * 256 + c1) * 256 + c2) * 256 + c3) * 2 ^ lastbyte_bits + c4 / 2 ^ (8 - lastbyte_bits)
        ≡ ((f0 * 256 + f1) * 256 + f2) * 2 ^ r + p
      → read_case_4 lsb off bits lastbyte_bits c0 c1 c2 c3 c4
        ≡ f0 + 256 * (f1 + 256 * (f2 + 256 * p))
  unfolding read_case_4
  read_case_4-lsb_3 c0 c1 c2 c3 c4 f0 f1 f2 h0 h1 h2 h3 h4 g0 g1 g2 width span value =
      rw (off-ne-zero, (let e : leb bits 32 ≡ true = ground arith in e))
        (ap bswap64 (
            realigned 3 32 (((f0 * 256 + f1) * 256 + f2)) p r _ (32 - bits) (omega arith) group
              narrow (omega arith)
              (regroup (24 + off) 32 ((((c0 * 256 + c1) * 256 + c2) * 256 + c3)) c4 lastbyte_bits
                (((f0 * 256 + f1) * 256 + f2)) p r _ last narrow h4 value (omega arith)
                (or_byte ((((c0) * 256 + c1) * 256 + c2) * 256 + c3) (get_msb c4 lastbyte_bits)
                  (24 + off) (32 + off)
                  (or_byte (((c0) * 256 + c1) * 256 + c2) c3 (32 + off) (40 + off)
                    (or_byte ((c0) * 256 + c1) c2 (40 + off) (48 + off)
                      (or_byte (c0) c1 (48 + off) (56 + off)
                        (shl64-exact (8 - off) c0 (56 + off) h0 (omega arith))
                        (shl64-exact 8 c1 (48 + off) h1 (omega arith)) (omega arith) h1)
                      (shl64-exact 8 c2 (40 + off) h2 (omega arith)) (omega arith) h2)
                    (shl64-exact 8 c3 (32 + off) h3 (omega arith)) (omega arith) h3)
                  (shl64-exact 8 (get_msb c4 lastbyte_bits) (24 + off)
                    (get_msb-lt c4 lastbyte_bits h4) (omega arith))
                  (omega arith) (get_msb-lt c4 lastbyte_bits h4))))
          ∙ bswap_3 f0 f1 f2 p g0 g1 g2 group-lt)

  pub read_case_4-lsb_4 :
      (c0 c1 c2 c3 c4 f0 f1 f2 f3 : ℕ) (h0 : c0 < 2 ^ (8 - off)) (h1 : c1 < 256) (h2 : c2 < 256)
      (h3 : c3 < 256) (h4 : c4 < 256) (g0 : f0 < 256) (g1 : f1 < 256) (g2 : f2 < 256)
      (g3 : f3 < 256)
      → bits ≡ 32 + r
      → off + bits ≡ 32 + lastbyte_bits
      → (((c0 * 256 + c1) * 256 + c2) * 256 + c3) * 2 ^ lastbyte_bits + c4 / 2 ^ (8 - lastbyte_bits)
        ≡ (((f0 * 256 + f1) * 256 + f2) * 256 + f3) * 2 ^ r + p
      → read_case_4 lsb off bits lastbyte_bits c0 c1 c2 c3 c4
        ≡ f0 + 256 * (f1 + 256 * (f2 + 256 * (f3 + 256 * p)))
  unfolding read_case_4
  read_case_4-lsb_4 c0 c1 c2 c3 c4 f0 f1 f2 f3 h0 h1 h2 h3 h4 g0 g1 g2 g3 width span value =
      rw (off-ne-zero, (let e : leb bits 32 ≡ false = ground arith in e))
        (ap bswap64 (
            realigned 4 24 ((((f0 * 256 + f1) * 256 + f2) * 256 + f3)) p r _ (40 - bits)
              (omega arith) group narrow (omega arith)
              (regroup (24 + off) 24 ((((c0 * 256 + c1) * 256 + c2) * 256 + c3)) c4 lastbyte_bits
                ((((f0 * 256 + f1) * 256 + f2) * 256 + f3)) p r _ last narrow h4 value (omega arith)
                (or_byte ((((c0) * 256 + c1) * 256 + c2) * 256 + c3) (get_msb c4 lastbyte_bits)
                  (24 + off) (32 + off)
                  (or_byte (((c0) * 256 + c1) * 256 + c2) c3 (32 + off) (40 + off)
                    (or_byte ((c0) * 256 + c1) c2 (40 + off) (48 + off)
                      (or_byte (c0) c1 (48 + off) (56 + off)
                        (shl64-exact (8 - off) c0 (56 + off) h0 (omega arith))
                        (shl64-exact 8 c1 (48 + off) h1 (omega arith)) (omega arith) h1)
                      (shl64-exact 8 c2 (40 + off) h2 (omega arith)) (omega arith) h2)
                    (shl64-exact 8 c3 (32 + off) h3 (omega arith)) (omega arith) h3)
                  (shl64-exact 8 (get_msb c4 lastbyte_bits) (24 + off)
                    (get_msb-lt c4 lastbyte_bits h4) (omega arith))
                  (omega arith) (get_msb-lt c4 lastbyte_bits h4))))
          ∙ bswap_4 f0 f1 f2 f3 p g0 g1 g2 g3 group-lt)
