-- ===== src/Ios/Read/SwitchAll.antt =====
-- The switch of `ios_read_int_common`, all cases: what it stores is the integer.
use poke.Base.{ℕ, zero, suc, ◌+◌, ◌-◌, ◌*◌, ◌%◌, ◌≤◌, ◌<◌, ◌≡◌, ◌≢◌, ◌∙◌, ap, arith, List}
use native.Mathlib.Decide.{ℕ_discrete, dec_le}
use poke.Ios.Word.{Endian, lsb, msb}
use poke.Ios.Field.{IsBytes, field_lsb, int_at, int_at-lsb}
use poke.Ios.Read.Common.{ReadResult, ok, read_switch}
use poke.Ios.Read.SwitchMsb
use poke.Ios.Read.SwitchMsb.{Holds}
use poke.Ios.Read.SwitchLsbNarrow
use poke.Ios.Read.SwitchLsbWide
use poke.Ios.Read.SwitchLsbNine
use poke.Ios.Read.SwitchAligned
use poke.Ios.Read.SwitchShort

module _ (mem : ℕ → ℕ) (bytes : IsBytes mem) (a off : ℕ) (in_byte : off < 8)
    (bits lastbyte_bits : ℕ) (last : lastbyte_bits ≤ 8) (c : List ℕ) (some_last : 0 < lastbyte_bits)
    (some : 0 < bits) (width : bits ≤ 64) (odd : off ≡ 0 → bits % 8 ≢ 0) where
  abbrev Stores : ℕ → Endian → Type 0
  Stores k endian =
      Holds mem a c k
      → off + bits ≡ 8 * k + lastbyte_bits
      → read_switch k endian off bits lastbyte_bits c ≡ ok (int_at mem endian (8 * a + off) bits)

  as_int :
      (q r : ℕ) {x : ReadResult}
      → bits ≡ 8 * q + r
      → 0 < r
      → r ≤ 8
      → x ≡ ok (field_lsb mem (8 * a + off) q r)
      → x ≡ ok (int_at mem lsb (8 * a + off) bits)
  as_int q r e h narrow x = x ∙ ap ok (int_at-lsb mem (8 * a + off) bits q r e h narrow)

  big : (k : ℕ) → Stores k msb
  unfolding int_at
  big zero held span =
      SwitchMsb.switch_0-msb mem bytes a off in_byte bits lastbyte_bits last c held (omega arith)
  big (suc zero) held span =
      SwitchMsb.switch_1-msb mem bytes a off in_byte bits lastbyte_bits last c held (omega arith)
  big (suc (suc zero)) held span =
      SwitchMsb.switch_2-msb mem bytes a off in_byte bits lastbyte_bits last c held (omega arith)
  big (suc (suc (suc zero))) held span =
      SwitchMsb.switch_3-msb mem bytes a off in_byte bits lastbyte_bits last c held (omega arith)
        (ground arith)
  big (suc (suc (suc (suc zero)))) held span =
      SwitchMsb.switch_4-msb mem bytes a off in_byte bits lastbyte_bits last c held (omega arith)
  big (suc (suc (suc (suc (suc zero))))) held span =
      SwitchMsb.switch_5-msb mem bytes a off in_byte bits lastbyte_bits last c held (omega arith)
  big (suc (suc (suc (suc (suc (suc zero)))))) held span =
      SwitchMsb.switch_6-msb mem bytes a off in_byte bits lastbyte_bits last c held (omega arith)
  big (suc (suc (suc (suc (suc (suc (suc zero))))))) held span =
      SwitchMsb.switch_7-msb mem bytes a off in_byte bits lastbyte_bits last c held (omega arith)
  big (suc (suc (suc (suc (suc (suc (suc (suc zero)))))))) held span =
      SwitchMsb.switch_8-msb mem bytes a off in_byte bits lastbyte_bits last c held (omega arith)
        width
  big (suc (suc (suc (suc (suc (suc (suc (suc (suc n))))))))) held span = absurd (omega arith)

  little : (k : ℕ) → Stores k lsb
  little zero held span = as_int 0 bits (omega arith) some (omega arith) (
      SwitchShort.switch_0-lsb mem bytes a off in_byte bits lastbyte_bits last c held (omega arith))
  little (suc zero) held span = elim (ℕ_discrete off 0) [
    | yes e ↦ rw e (
        SwitchAligned.switch_1-aligned mem bytes a bits lastbyte_bits last c held some_last
          (ground (arith, odd e)) (omega arith)
        ∙ ap ok (int_at-lsb mem (8 * a + 0) bits 1 lastbyte_bits (omega arith) some_last last))
    | no ne ↦ elim (dec_le bits 8) [
      | yes h ↦
          as_int 0 bits (omega arith) some h (
            SwitchShort.switch_1-lsb_0 mem bytes a off in_byte bits lastbyte_bits last c held h
              span)
      | no h ↦ as_int 1 (bits - 8) (omega arith) (omega arith) (omega arith) (
          SwitchShort.switch_1-lsb_1 mem bytes a off in_byte bits lastbyte_bits last c (bits - 8)
            held ne (omega arith) (omega arith) (omega arith) span)
    ]
  ]
  little (suc (suc zero)) held span = elim (ℕ_discrete off 0) [
    | yes e ↦ rw e (
        SwitchAligned.switch_2-aligned mem bytes a bits lastbyte_bits last c held some_last
          (ground (arith, odd e)) (omega arith)
        ∙ ap ok (int_at-lsb mem (8 * a + 0) bits 2 lastbyte_bits (omega arith) some_last last))
    | no ne ↦ elim (dec_le bits 16) [
      | yes h ↦ as_int 1 (bits - 8) (omega arith) (omega arith) (omega arith) (
          SwitchLsbNarrow.switch_2-lsb_1 mem bytes a off in_byte bits lastbyte_bits last c
            (bits - 8) held ne (omega arith) (omega arith) (omega arith) span)
      | no h ↦ as_int 2 (bits - 16) (omega arith) (omega arith) (omega arith) (
          SwitchLsbNarrow.switch_2-lsb_2 mem bytes a off in_byte bits lastbyte_bits last c
            (bits - 16) held ne (omega arith) (omega arith) (omega arith) span)
    ]
  ]
  little (suc (suc (suc zero))) held span = elim (ℕ_discrete off 0) [
    | yes e ↦ rw e (
        SwitchAligned.switch_3-aligned mem bytes a bits lastbyte_bits last c held some_last
          (ground (arith, odd e)) (omega arith)
        ∙ ap ok (int_at-lsb mem (8 * a + 0) bits 3 lastbyte_bits (omega arith) some_last last))
    | no ne ↦ elim (dec_le bits 24) [
      | yes h ↦ as_int 2 (bits - 16) (omega arith) (omega arith) (omega arith) (
          SwitchLsbNarrow.switch_3-lsb_2 mem bytes a off in_byte bits lastbyte_bits last c
            (bits - 16) held ne (omega arith) (omega arith) (omega arith) span)
      | no h ↦ as_int 3 (bits - 24) (omega arith) (omega arith) (omega arith) (
          SwitchLsbNarrow.switch_3-lsb_3 mem bytes a off in_byte bits lastbyte_bits last c
            (bits - 24) held ne (omega arith) (omega arith) (omega arith) span)
    ]
  ]
  little (suc (suc (suc (suc zero)))) held span = elim (ℕ_discrete off 0) [
    | yes e ↦ rw e (
        SwitchAligned.switch_4-aligned mem bytes a bits lastbyte_bits last c held some_last
          (ground (arith, odd e)) (omega arith)
        ∙ ap ok (int_at-lsb mem (8 * a + 0) bits 4 lastbyte_bits (omega arith) some_last last))
    | no ne ↦ elim (dec_le bits 32) [
      | yes h ↦ as_int 3 (bits - 24) (omega arith) (omega arith) (omega arith) (
          SwitchLsbNarrow.switch_4-lsb_3 mem bytes a off in_byte bits lastbyte_bits last c
            (bits - 24) held ne (omega arith) (omega arith) (omega arith) span)
      | no h ↦ as_int 4 (bits - 32) (omega arith) (omega arith) (omega arith) (
          SwitchLsbNarrow.switch_4-lsb_4 mem bytes a off in_byte bits lastbyte_bits last c
            (bits - 32) held ne (omega arith) (omega arith) (omega arith) span)
    ]
  ]
  little (suc (suc (suc (suc (suc zero))))) held span = elim (ℕ_discrete off 0) [
    | yes e ↦ rw e (
        SwitchAligned.switch_5-aligned mem bytes a bits lastbyte_bits last c held some_last
          (ground (arith, odd e)) (omega arith)
        ∙ ap ok (int_at-lsb mem (8 * a + 0) bits 5 lastbyte_bits (omega arith) some_last last))
    | no ne ↦ elim (dec_le bits 40) [
      | yes h ↦ as_int 4 (bits - 32) (omega arith) (omega arith) (omega arith) (
          SwitchLsbWide.switch_5-lsb_4 mem bytes a off in_byte bits lastbyte_bits last c (bits - 32)
            held ne (omega arith) (omega arith) (omega arith) span)
      | no h ↦ as_int 5 (bits - 40) (omega arith) (omega arith) (omega arith) (
          SwitchLsbWide.switch_5-lsb_5 mem bytes a off in_byte bits lastbyte_bits last c (bits - 40)
            held ne (omega arith) (omega arith) (omega arith) span)
    ]
  ]
  little (suc (suc (suc (suc (suc (suc zero)))))) held span = elim (ℕ_discrete off 0) [
    | yes e ↦ rw e (
        SwitchAligned.switch_6-aligned mem bytes a bits lastbyte_bits last c held some_last
          (ground (arith, odd e)) (omega arith)
        ∙ ap ok (int_at-lsb mem (8 * a + 0) bits 6 lastbyte_bits (omega arith) some_last last))
    | no ne ↦ elim (dec_le bits 48) [
      | yes h ↦ as_int 5 (bits - 40) (omega arith) (omega arith) (omega arith) (
          SwitchLsbWide.switch_6-lsb_5 mem bytes a off in_byte bits lastbyte_bits last c (bits - 40)
            held ne (omega arith) (omega arith) (omega arith) span)
      | no h ↦ as_int 6 (bits - 48) (omega arith) (omega arith) (omega arith) (
          SwitchLsbWide.switch_6-lsb_6 mem bytes a off in_byte bits lastbyte_bits last c (bits - 48)
            held ne (omega arith) (omega arith) (omega arith) span)
    ]
  ]
  little (suc (suc (suc (suc (suc (suc (suc zero))))))) held span = elim (ℕ_discrete off 0) [
    | yes e ↦ rw e (
        SwitchAligned.switch_7-aligned mem bytes a bits lastbyte_bits last c held some_last
          (ground (arith, odd e)) (omega arith)
        ∙ ap ok (int_at-lsb mem (8 * a + 0) bits 7 lastbyte_bits (omega arith) some_last last))
    | no ne ↦ elim (dec_le bits 56) [
      | yes h ↦ as_int 6 (bits - 48) (omega arith) (omega arith) (omega arith) (
          SwitchLsbWide.switch_7-lsb_6 mem bytes a off in_byte bits lastbyte_bits last c (bits - 48)
            held ne (omega arith) (omega arith) (omega arith) span)
      | no h ↦ as_int 7 (bits - 56) (omega arith) (omega arith) (omega arith) (
          SwitchLsbWide.switch_7-lsb_7 mem bytes a off in_byte bits lastbyte_bits last c (bits - 56)
            held ne (omega arith) (omega arith) (omega arith) span)
    ]
  ]
  little (suc (suc (suc (suc (suc (suc (suc (suc zero)))))))) held span = elim (ℕ_discrete off 0) [
    | yes e ↦ absurd (omega arith)
    | no ne ↦ elim (dec_le bits 64) [
      | yes h ↦ as_int 7 (bits - 56) (omega arith) (omega arith) (omega arith) (
          SwitchLsbNine.switch_8-lsb_7 mem bytes a off in_byte bits lastbyte_bits last c (bits - 56)
            held ne (omega arith) (omega arith) (omega arith) span)
      | no h ↦ absurd (omega arith)
    ]
  ]
  little (suc (suc (suc (suc (suc (suc (suc (suc (suc n))))))))) held span = absurd (omega arith)

  -- Whatever the width, the place and the byte order.
  pub switch-int_at : (k : ℕ) (endian : Endian) → Stores k endian
  switch-int_at k msb = big k
  switch-int_at k lsb = little k
