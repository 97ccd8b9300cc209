-- ===== src/Ios/Read/SwitchAligned.antt =====
-- The switch of `ios_read_int_common` at little endian: it stores the groups of eight bits, the last
-- group on top.
use native.Mathlib.Nat.{add-zero}
use poke.Base.{ℕ, ◌+◌, ◌-◌, ◌*◌, ◌/◌, ◌%◌, ◌^◌, ◌≤◌, ◌<◌, ◌≡◌, ◌∙◌, ap, arith, List, get_or}
use poke.Ios.Word.{lsb, get_lsb}
use poke.Ios.Field.{field, field_lsb, IsBytes, shift, shift_lem, field_whole, field_last}
use poke.Ios.Read.Common.{ok, read_switch}
use poke.Ios.Read.LsbAligned
use poke.Ios.Read.SwitchMsb.{Holds, first_byte}

module _ (mem : ℕ → ℕ) (bytes : IsBytes mem) (a : ℕ) (bits lastbyte_bits : ℕ)
    (last : lastbyte_bits ≤ 8) (c : List ℕ) where
  first_whole : (k : ℕ) → Holds mem a c k → get_lsb (get_or c 0 0) (8 - 0) ≡ mem a
  first_whole k held =
      first_byte mem a 0 c k held ∙ (let e : mem a % 256 ≡ mem a = omega (arith, bytes a) in e)

  -- The groups of a field at a byte boundary are the bytes.
  byte_group : (i : ℕ) → field mem (shift (8 * a + 0) i) 8 ≡ mem (a + i)
  byte_group i =
      ap (λ p. field mem p 8)
        (let e : shift (8 * a + 0) i ≡ 8 * (a + i) = omega (arith, shift_lem (8 * a + 0) i) in e)
      ∙ field_whole mem bytes (a + i)

  part_group :
      (i : ℕ)
      → field mem (shift (8 * a + 0) i) lastbyte_bits ≡ mem (a + i) / 2 ^ (8 - lastbyte_bits)
  part_group i =
      ap (λ p. field mem p lastbyte_bits)
        (let e : shift (8 * a + 0) i ≡ 8 * (a + i) = omega (arith, shift_lem (8 * a + 0) i) in e)
      ∙ field_last mem bytes (a + i) lastbyte_bits last

  pub switch_1-aligned :
      Holds mem a c 1
      → 0 < lastbyte_bits
      → lastbyte_bits < 8
      → bits ≡ 8 + lastbyte_bits
      → read_switch 1 lsb 0 bits lastbyte_bits c ≡ ok (field_lsb mem (8 * a + 0) 1 lastbyte_bits)
  unfolding read_switch field_lsb
  switch_1-aligned held some partial width = ap ok (
      rw (first_whole 1 held, held 1 (omega arith), byte_group 0, part_group 1, add-zero)
        (LsbAligned.read_case_1-aligned bits lastbyte_bits last (mem a) (mem (a + 1)) (bytes a)
          (bytes (a + 1)) (omega arith)))

  pub switch_2-aligned :
      Holds mem a c 2
      → 0 < lastbyte_bits
      → lastbyte_bits < 8
      → bits ≡ 16 + lastbyte_bits
      → read_switch 2 lsb 0 bits lastbyte_bits c ≡ ok (field_lsb mem (8 * a + 0) 2 lastbyte_bits)
  unfolding read_switch field_lsb
  switch_2-aligned held some partial width = ap ok (
      rw
        (
          first_whole 2 held,
          held 1 (omega arith),
          held 2 (omega arith),
          byte_group 0,
          byte_group 1,
          part_group 2,
          add-zero,
        )
        (LsbAligned.read_case_2-aligned bits lastbyte_bits last (mem a) (mem (a + 1)) (mem (a + 2))
          (bytes a) (bytes (a + 1)) (bytes (a + 2))))

  pub switch_3-aligned :
      Holds mem a c 3
      → 0 < lastbyte_bits
      → lastbyte_bits < 8
      → bits ≡ 24 + lastbyte_bits
      → read_switch 3 lsb 0 bits lastbyte_bits c ≡ ok (field_lsb mem (8 * a + 0) 3 lastbyte_bits)
  unfolding read_switch field_lsb
  switch_3-aligned held some partial width = ap ok (
      rw
        (
          first_whole 3 held,
          held 1 (omega arith),
          held 2 (omega arith),
          held 3 (omega arith),
          byte_group 0,
          byte_group 1,
          byte_group 2,
          part_group 3,
          add-zero,
        )
        (LsbAligned.read_case_3-aligned bits lastbyte_bits last (mem a) (mem (a + 1)) (mem (a + 2))
          (mem (a + 3)) (bytes a) (bytes (a + 1)) (bytes (a + 2)) (bytes (a + 3)) (omega arith)))

  pub switch_4-aligned :
      Holds mem a c 4
      → 0 < lastbyte_bits
      → lastbyte_bits < 8
      → bits ≡ 32 + lastbyte_bits
      → read_switch 4 lsb 0 bits lastbyte_bits c ≡ ok (field_lsb mem (8 * a + 0) 4 lastbyte_bits)
  unfolding read_switch field_lsb
  switch_4-aligned held some partial width = ap ok (
      rw
        (
          first_whole 4 held,
          held 1 (omega arith),
          held 2 (omega arith),
          held 3 (omega arith),
          held 4 (omega arith),
          byte_group 0,
          byte_group 1,
          byte_group 2,
          byte_group 3,
          part_group 4,
          add-zero,
        )
        (LsbAligned.read_case_4-aligned bits lastbyte_bits last (mem a) (mem (a + 1)) (mem (a + 2))
          (mem (a + 3)) (mem (a + 4)) (bytes a) (bytes (a + 1)) (bytes (a + 2)) (bytes (a + 3))
          (bytes (a + 4))))

  pub switch_5-aligned :
      Holds mem a c 5
      → 0 < lastbyte_bits
      → lastbyte_bits < 8
      → bits ≡ 40 + lastbyte_bits
      → read_switch 5 lsb 0 bits lastbyte_bits c ≡ ok (field_lsb mem (8 * a + 0) 5 lastbyte_bits)
  unfolding read_switch field_lsb
  switch_5-aligned held some partial width = ap ok (
      rw
        (
          first_whole 5 held,
          held 1 (omega arith),
          held 2 (omega arith),
          held 3 (omega arith),
          held 4 (omega arith),
          held 5 (omega arith),
          byte_group 0,
          byte_group 1,
          byte_group 2,
          byte_group 3,
          byte_group 4,
          part_group 5,
          add-zero,
        )
        (LsbAligned.read_case_5-aligned bits lastbyte_bits last (mem a) (mem (a + 1)) (mem (a + 2))
          (mem (a + 3)) (mem (a + 4)) (mem (a + 5)) (bytes a) (bytes (a + 1)) (bytes (a + 2))
          (bytes (a + 3)) (bytes (a + 4)) (bytes (a + 5))))

  pub switch_6-aligned :
      Holds mem a c 6
      → 0 < lastbyte_bits
      → lastbyte_bits < 8
      → bits ≡ 48 + lastbyte_bits
      → read_switch 6 lsb 0 bits lastbyte_bits c ≡ ok (field_lsb mem (8 * a + 0) 6 lastbyte_bits)
  unfolding read_switch field_lsb
  switch_6-aligned held some partial width = ap ok (
      rw
        (
          first_whole 6 held,
          held 1 (omega arith),
          held 2 (omega arith),
          held 3 (omega arith),
          held 4 (omega arith),
          held 5 (omega arith),
          held 6 (omega arith),
          byte_group 0,
          byte_group 1,
          byte_group 2,
          byte_group 3,
          byte_group 4,
          byte_group 5,
          part_group 6,
          add-zero,
        )
        (LsbAligned.read_case_6-aligned bits lastbyte_bits last (mem a) (mem (a + 1)) (mem (a + 2))
          (mem (a + 3)) (mem (a + 4)) (mem (a + 5)) (mem (a + 6)) (bytes a) (bytes (a + 1))
          (bytes (a + 2)) (bytes (a + 3)) (bytes (a + 4)) (bytes (a + 5)) (bytes (a + 6))))

  pub switch_7-aligned :
      Holds mem a c 7
      → 0 < lastbyte_bits
      → lastbyte_bits < 8
      → bits ≡ 56 + lastbyte_bits
      → read_switch 7 lsb 0 bits lastbyte_bits c ≡ ok (field_lsb mem (8 * a + 0) 7 lastbyte_bits)
  unfolding read_switch field_lsb
  switch_7-aligned held some partial width = ap ok (
      rw
        (
          first_whole 7 held,
          held 1 (omega arith),
          held 2 (omega arith),
          held 3 (omega arith),
          held 4 (omega arith),
          held 5 (omega arith),
          held 6 (omega arith),
          held 7 (omega arith),
          byte_group 0,
          byte_group 1,
          byte_group 2,
          byte_group 3,
          byte_group 4,
          byte_group 5,
          byte_group 6,
          part_group 7,
          add-zero,
        )
        (LsbAligned.read_case_7-aligned bits lastbyte_bits last (mem a) (mem (a + 1)) (mem (a + 2))
          (mem (a + 3)) (mem (a + 4)) (mem (a + 5)) (mem (a + 6)) (mem (a + 7)) (bytes a)
          (bytes (a + 1)) (bytes (a + 2)) (bytes (a + 3)) (bytes (a + 4)) (bytes (a + 5))
          (bytes (a + 6)) (bytes (a + 7))))
