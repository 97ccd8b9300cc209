-- ===== src/Ios/Write/Ordered.antt =====
-- The value put in order is the message of a little endian value.
use native.Mathlib.Decide.{dec_lt}
use poke.Base.{
  ℕ, zero, suc, ◌+◌, ◌*◌, ◌/◌, ◌%◌, ◌^◌, ◌≤◌, ◌<◌, ◌≡◌, refl, ◌∙◌, ap, arith, ltb, false, lt→ltb,
}
use poke.Ios.Word.{Endian, lsb, msb, bswap64}
use poke.Ios.Write.Message.{message, message-lt}
use poke.Ios.Write.Order.{order_1, order_2, order_3, order_4, order_5, order_6, order_7, order_8}
use poke.Ios.Write.Swap
use poke.Ios.Write.Cases.{ordered}

-- The message of `bits` bits.
abbrev pub message_of : ℕ → ℕ → ℕ
message_of bits v = message (bits / 8) (bits % 8) 0 v

-- A value of at most one group is its message.
short : (bits v : ℕ) → bits ≤ 8 → v < 2 ^ bits → v ≡ message_of bits v
unfolding message
short bits v h fits = elim (dec_lt bits 8) [
  | yes q ↦ rw (let e : bits / 8 ≡ 0 = omega arith in e) (omega arith)
  | no q ↦ let e : bits ≡ 8 = omega arith in rw e (omega (arith, ap (λ (x : ℕ). 2 ^ x) e))
]

module _ (bits v : ℕ) (fits : v < 2 ^ bits) where
  small : (q : ℕ) → bits / 8 ≡ q → v < 2 ^ (8 * q + bits % 8)
  small q e =
      omega (arith, ap (λ (x : ℕ). 2 ^ x) (let f : bits ≡ 8 * q + bits % 8 = omega arith in f))

  to_message : (q : ℕ) → bits / 8 ≡ q → message q (bits % 8) 0 v ≡ message_of bits v
  to_message q e = ap (λ x. message x (bits % 8) 0 v) (omega arith)

  whole : bits ≡ 64 → bswap64 v ≡ message_of bits v
  unfolding bswap64 message
  whole e = rw e (omega (arith, ap (λ (x : ℕ). 2 ^ x) e))

  -- In each case of the switch.
  pub ordered-message :
      (k : ℕ)
      → k ≤ 8
      → 8 * k < bits + 8
      → bits < 8 * k + 8
      → bits ≤ 64
      → ordered k lsb bits v ≡ message_of bits v
  unfolding ordered order_1 order_2 order_3 order_4 order_5 order_6 order_7 order_8
  ordered-message zero a b c d = short bits v (omega arith) fits
  ordered-message (suc zero) a b c d = elim (dec_lt 8 bits) [
    | yes q ↦
        rw (lt→ltb 8 bits q)
          (Swap.swap_2-message bits v (small 1 (omega arith)) ∙ to_message 1 (omega arith))
    | no q ↦ rw (let e : ltb 8 bits ≡ false = ground arith in e) (short bits v (omega arith) fits)
  ]
  ordered-message (suc (suc zero)) a b c d = elim (dec_lt bits 16) [
    | yes q ↦
        rw (lt→ltb bits 16 q)
          (Swap.swap_2-message bits v (small 1 (omega arith)) ∙ to_message 1 (omega arith))
    | no q ↦
        rw (let e : ltb bits 16 ≡ false = ground arith in e)
          (Swap.swap_3-message bits v (small 2 (omega arith)) ∙ to_message 2 (omega arith))
  ]
  ordered-message (suc (suc (suc zero))) a b c d = elim (dec_lt bits 24) [
    | yes q ↦
        rw (lt→ltb bits 24 q)
          (Swap.swap_3-message bits v (small 2 (omega arith)) ∙ to_message 2 (omega arith))
    | no q ↦
        rw (let e : ltb bits 24 ≡ false = ground arith in e)
          (Swap.swap_4-message bits v (small 3 (omega arith)) ∙ to_message 3 (omega arith))
  ]
  ordered-message (suc (suc (suc (suc zero)))) a b c d = elim (dec_lt bits 32) [
    | yes q ↦
        rw (lt→ltb bits 32 q)
          (Swap.swap_4-message bits v (small 3 (omega arith)) ∙ to_message 3 (omega arith))
    | no q ↦
        rw (let e : ltb bits 32 ≡ false = ground arith in e)
          (Swap.swap_5-message bits v (small 4 (omega arith)) ∙ to_message 4 (omega arith))
  ]
  ordered-message (suc (suc (suc (suc (suc zero))))) a b c d = elim (dec_lt bits 40) [
    | yes q ↦
        rw (lt→ltb bits 40 q)
          (Swap.swap_5-message bits v (small 4 (omega arith)) ∙ to_message 4 (omega arith))
    | no q ↦
        rw (let e : ltb bits 40 ≡ false = ground arith in e)
          (Swap.swap_6-message bits v (small 5 (omega arith)) ∙ to_message 5 (omega arith))
  ]
  ordered-message (suc (suc (suc (suc (suc (suc zero)))))) a b c d = elim (dec_lt bits 48) [
    | yes q ↦
        rw (lt→ltb bits 48 q)
          (Swap.swap_6-message bits v (small 5 (omega arith)) ∙ to_message 5 (omega arith))
    | no q ↦
        rw (let e : ltb bits 48 ≡ false = ground arith in e)
          (Swap.swap_7-message bits v (small 6 (omega arith)) ∙ to_message 6 (omega arith))
  ]
  ordered-message (suc (suc (suc (suc (suc (suc (suc zero))))))) a b c d = elim (dec_lt bits 56) [
    | yes q ↦
        rw (lt→ltb bits 56 q)
          (Swap.swap_7-message bits v (small 6 (omega arith)) ∙ to_message 6 (omega arith))
    | no q ↦
        rw (let e : ltb bits 56 ≡ false = ground arith in e)
          (Swap.swap_8-message bits v (small 7 (omega arith)) ∙ to_message 7 (omega arith))
  ]
  ordered-message (suc (suc (suc (suc (suc (suc (suc (suc zero)))))))) a b c d =
      elim (dec_lt bits 64) [
        | yes q ↦
            rw (lt→ltb bits 64 q)
              (Swap.swap_8-message bits v (small 7 (omega arith)) ∙ to_message 7 (omega arith))
        | no q ↦ rw (let e : ltb bits 64 ≡ false = ground arith in e) (whole (omega arith))
      ]
  ordered-message (suc (suc (suc (suc (suc (suc (suc (suc (suc k))))))))) a b c d =
      absurd (omega arith)

  -- It keeps the width.
  pub ordered-lt :
      (endian : Endian) (k : ℕ)
      → k ≤ 8
      → 8 * k < bits + 8
      → bits < 8 * k + 8
      → bits ≤ 64
      → ordered k endian bits v < 2 ^ bits
  unfolding ordered
  ordered-lt msb k a b c d = fits
  ordered-lt lsb k a b c d =
      let lt : message_of bits v < 2 ^ (8 * (bits / 8) + bits % 8) =
        message-lt (bits / 8) (bits % 8) v (small (bits / 8) refl) in
      rw (ordered-message k a b c d) (
        omega (
          arith,
          lt,
          ap (λ (x : ℕ). 2 ^ x) (let f : bits ≡ 8 * (bits / 8) + bits % 8 = omega arith in f),
        ))
