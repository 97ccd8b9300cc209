-- ===== src/Ios/Read/SwitchShort.antt =====
-- The switch of `ios_read_int_common` at little endian: it stores the groups of eight bits, the last
-- group on top.
use native.Mathlib.Nat.{mod-lt, one-le-pow}
use poke.Base.{ℕ, ◌+◌, ◌-◌, ◌*◌, ◌%◌, ◌^◌, ◌≤◌, ◌<◌, ◌≡◌, ◌≢◌, ◌∙◌, ap, sym, arith, List, get_or}
use poke.Ios.Word.{lsb, get_lsb}
use poke.Ios.Field.{field, field-lt, field_lsb, IsBytes, field_span, shift, field-groups_last}
use poke.Ios.Read.Common.{ok, read_switch}
use poke.Ios.Read.LsbAligned
use poke.Ios.Read.SwitchMsb.{Holds, first_byte, read_case_0_lem}
use poke.Ios.Read.SwitchMsb

module _ (mem : ℕ → ℕ) (bytes : IsBytes mem) (a off : ℕ) (in_byte : off < 8)
    (bits lastbyte_bits : ℕ) (last : lastbyte_bits ≤ 8) (c : List ℕ) where
  first-lt : mem a % 2 ^ (8 - off) < 2 ^ (8 - off)
  first-lt = mod-lt (mem a) (one-le-pow (8 - off) 2 (omega arith))

  -- The bits read, and the groups that they are taken as.
  abbrev group : ℕ → ℕ
  group i = field mem (shift (8 * a + off) i) 8

  group-lt : (i : ℕ) → group i < 256
  group-lt i = field-lt mem (shift (8 * a + off) i) 8

  abbrev last_group : ℕ → ℕ → ℕ
  last_group q r = field mem (shift (8 * a + off) q) r

  pub switch_0-lsb :
      Holds mem a c 0
      → off + bits ≡ lastbyte_bits
      → read_switch 0 lsb off bits lastbyte_bits c ≡ ok (field_lsb mem (8 * a + off) 0 bits)
  unfolding read_switch field_lsb
  switch_0-lsb held width =
      ap ok (read_case_0_lem mem bytes a off in_byte bits lastbyte_bits last c held width)

  -- At most eight bits: no byte order is involved.
  pub switch_1-lsb_0 :
      Holds mem a c 1
      → bits ≤ 8
      → off + bits ≡ 8 + lastbyte_bits
      → read_switch 1 lsb off bits lastbyte_bits c ≡ ok (field_lsb mem (8 * a + off) 0 bits)
  unfolding read_switch field_lsb
  switch_1-lsb_0 held narrow width =
      ap ok (
        LsbAligned.read_case_1-lsb_0 bits lastbyte_bits last off (get_lsb (get_or c 0 0) (8 - off))
          (get_or c 1 0) narrow)
      ∙ SwitchMsb.switch_1-msb mem bytes a off in_byte bits lastbyte_bits last c held width

  pub switch_1-lsb_1 :
      (r : ℕ)
      → Holds mem a c 1
      → off ≢ 0
      → 0 < r
      → r < 8
      → bits ≡ 8 + r
      → off + bits ≡ 8 + lastbyte_bits
      → read_switch 1 lsb off bits lastbyte_bits c ≡ ok (field_lsb mem (8 * a + off) 1 r)
  unfolding read_switch field_lsb
  switch_1-lsb_1 r held unaligned some narrow width span =
      let value =
        sym (field_span mem bytes a off in_byte 0 lastbyte_bits last)
        ∙ ap (field mem (8 * a + off))
            (let e : 8 - off + 8 * 0 + lastbyte_bits ≡ 8 + 8 * 0 + r = omega arith in e)
        ∙ field-groups_last mem (8 * a + off) 0 r in
      ap ok (
        rw (first_byte mem a off c 1 held, held 1 (omega arith))
          (LsbAligned.read_case_1-lsb_1 bits lastbyte_bits last off (mem a % 2 ^ (8 - off))
            (mem (a + 1)) (group 0) (last_group 1 r) r first-lt (bytes (a + 1)) (group-lt 0)
            (field-lt mem (shift (8 * a + off) 1) r) narrow some in_byte unaligned width span
            value))
