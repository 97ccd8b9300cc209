-- ===== src/Ios/Read/SwitchLsbNarrow.antt =====
-- The switch of `ios_read_int_common` at little endian: it stores the groups of eight bits, the last
-- group on top.
use native.Mathlib.Nat.{mod-lt, one-le-pow}
use poke.Base.{ℕ, ◌+◌, ◌-◌, ◌*◌, ◌%◌, ◌^◌, ◌≤◌, ◌<◌, ◌≡◌, ◌≢◌, ◌∙◌, ap, sym, arith, List}
use poke.Ios.Word.{lsb}
use poke.Ios.Field.{field, field-lt, field_lsb, IsBytes, field_span, shift, field-groups_last}
use poke.Ios.Read.Common.{ok, read_switch}
use poke.Ios.Read.LsbNarrow
use poke.Ios.Read.SwitchMsb.{Holds, first_byte}

module _ (mem : ℕ → ℕ) (bytes : IsBytes mem) (a off : ℕ) (in_byte : off < 8)
    (bits lastbyte_bits : ℕ) (last : lastbyte_bits ≤ 8) (c : List ℕ) where
  first-lt : mem a % 2 ^ (8 - off) < 2 ^ (8 - off)
  first-lt = mod-lt (mem a) (one-le-pow (8 - off) 2 (omega arith))

  -- The bits read, and the groups that they are taken as.
  abbrev group : ℕ → ℕ
  group i = field mem (shift (8 * a + off) i) 8

  group-lt : (i : ℕ) → group i < 256
  group-lt i = field-lt mem (shift (8 * a + off) i) 8

  abbrev last_group : ℕ → ℕ → ℕ
  last_group q r = field mem (shift (8 * a + off) q) r

  pub switch_2-lsb_1 :
      (r : ℕ)
      → Holds mem a c 2
      → off ≢ 0
      → 0 < r
      → r ≤ 8
      → bits ≡ 8 + r
      → off + bits ≡ 16 + lastbyte_bits
      → read_switch 2 lsb off bits lastbyte_bits c ≡ ok (field_lsb mem (8 * a + off) 1 r)
  unfolding read_switch field_lsb
  switch_2-lsb_1 r held unaligned some narrow width span =
      let value =
        sym (field_span mem bytes a off in_byte 1 lastbyte_bits last)
        ∙ ap (field mem (8 * a + off))
            (let e : 8 - off + 8 * 1 + lastbyte_bits ≡ 8 + 8 * 0 + r = omega arith in e)
        ∙ field-groups_last mem (8 * a + off) 0 r in
      ap ok (
        rw (first_byte mem a off c 2 held, held 1 (omega arith), held 2 (omega arith))
          (LsbNarrow.read_case_2-lsb_1 off bits lastbyte_bits (last_group 1 r) r last in_byte
            unaligned (field-lt mem (shift (8 * a + off) 1) r) some narrow (mem a % 2 ^ (8 - off))
            (mem (a + 1)) (mem (a + 2)) (group 0) first-lt (bytes (a + 1)) (bytes (a + 2))
            (group-lt 0) width span value))

  pub switch_2-lsb_2 :
      (r : ℕ)
      → Holds mem a c 2
      → off ≢ 0
      → 0 < r
      → r ≤ 8
      → bits ≡ 16 + r
      → off + bits ≡ 16 + lastbyte_bits
      → read_switch 2 lsb off bits lastbyte_bits c ≡ ok (field_lsb mem (8 * a + off) 2 r)
  unfolding read_switch field_lsb
  switch_2-lsb_2 r held unaligned some narrow width span =
      let value =
        sym (field_span mem bytes a off in_byte 1 lastbyte_bits last)
        ∙ ap (field mem (8 * a + off))
            (let e : 8 - off + 8 * 1 + lastbyte_bits ≡ 8 + 8 * 1 + r = omega arith in e)
        ∙ field-groups_last mem (8 * a + off) 1 r in
      ap ok (
        rw (first_byte mem a off c 2 held, held 1 (omega arith), held 2 (omega arith))
          (LsbNarrow.read_case_2-lsb_2 off bits lastbyte_bits (last_group 2 r) r last in_byte
            unaligned (field-lt mem (shift (8 * a + off) 2) r) some narrow (mem a % 2 ^ (8 - off))
            (mem (a + 1)) (mem (a + 2)) (group 0) (group 1) first-lt (bytes (a + 1)) (bytes (a + 2))
            (group-lt 0) (group-lt 1) width span value))

  pub switch_3-lsb_2 :
      (r : ℕ)
      → Holds mem a c 3
      → off ≢ 0
      → 0 < r
      → r ≤ 8
      → bits ≡ 16 + r
      → off + bits ≡ 24 + lastbyte_bits
      → read_switch 3 lsb off bits lastbyte_bits c ≡ ok (field_lsb mem (8 * a + off) 2 r)
  unfolding read_switch field_lsb
  switch_3-lsb_2 r held unaligned some narrow width span =
      let value =
        sym (field_span mem bytes a off in_byte 2 lastbyte_bits last)
        ∙ ap (field mem (8 * a + off))
            (let e : 8 - off + 8 * 2 + lastbyte_bits ≡ 8 + 8 * 1 + r = omega arith in e)
        ∙ field-groups_last mem (8 * a + off) 1 r in
      ap ok (
        rw
          (
            first_byte mem a off c 3 held,
            held 1 (omega arith),
            held 2 (omega arith),
            held 3 (omega arith),
          )
          (LsbNarrow.read_case_3-lsb_2 off bits lastbyte_bits (last_group 2 r) r last in_byte
            unaligned (field-lt mem (shift (8 * a + off) 2) r) some narrow (mem a % 2 ^ (8 - off))
            (mem (a + 1)) (mem (a + 2)) (mem (a + 3)) (group 0) (group 1) first-lt (bytes (a + 1))
            (bytes (a + 2)) (bytes (a + 3)) (group-lt 0) (group-lt 1) width span value))

  pub switch_3-lsb_3 :
      (r : ℕ)
      → Holds mem a c 3
      → off ≢ 0
      → 0 < r
      → r ≤ 8
      → bits ≡ 24 + r
      → off + bits ≡ 24 + lastbyte_bits
      → read_switch 3 lsb off bits lastbyte_bits c ≡ ok (field_lsb mem (8 * a + off) 3 r)
  unfolding read_switch field_lsb
  switch_3-lsb_3 r held unaligned some narrow width span =
      let value =
        sym (field_span mem bytes a off in_byte 2 lastbyte_bits last)
        ∙ ap (field mem (8 * a + off))
            (let e : 8 - off + 8 * 2 + lastbyte_bits ≡ 8 + 8 * 2 + r = omega arith in e)
        ∙ field-groups_last mem (8 * a + off) 2 r in
      ap ok (
        rw
          (
            first_byte mem a off c 3 held,
            held 1 (omega arith),
            held 2 (omega arith),
            held 3 (omega arith),
          )
          (LsbNarrow.read_case_3-lsb_3 off bits lastbyte_bits (last_group 3 r) r last in_byte
            unaligned (field-lt mem (shift (8 * a + off) 3) r) some narrow (mem a % 2 ^ (8 - off))
            (mem (a + 1)) (mem (a + 2)) (mem (a + 3)) (group 0) (group 1) (group 2) first-lt
            (bytes (a + 1)) (bytes (a + 2)) (bytes (a + 3)) (group-lt 0) (group-lt 1) (group-lt 2)
            width span value))

  pub switch_4-lsb_3 :
      (r : ℕ)
      → Holds mem a c 4
      → off ≢ 0
      → 0 < r
      → r ≤ 8
      → bits ≡ 24 + r
      → off + bits ≡ 32 + lastbyte_bits
      → read_switch 4 lsb off bits lastbyte_bits c ≡ ok (field_lsb mem (8 * a + off) 3 r)
  unfolding read_switch field_lsb
  switch_4-lsb_3 r held unaligned some narrow width span =
      let value =
        sym (field_span mem bytes a off in_byte 3 lastbyte_bits last)
        ∙ ap (field mem (8 * a + off))
            (let e : 8 - off + 8 * 3 + lastbyte_bits ≡ 8 + 8 * 2 + r = omega arith in e)
        ∙ field-groups_last mem (8 * a + off) 2 r in
      ap ok (
        rw
          (
            first_byte mem a off c 4 held,
            held 1 (omega arith),
            held 2 (omega arith),
            held 3 (omega arith),
            held 4 (omega arith),
          )
          (LsbNarrow.read_case_4-lsb_3 off bits lastbyte_bits (last_group 3 r) r last in_byte
            unaligned (field-lt mem (shift (8 * a + off) 3) r) some narrow (mem a % 2 ^ (8 - off))
            (mem (a + 1)) (mem (a + 2)) (mem (a + 3)) (mem (a + 4)) (group 0) (group 1) (group 2)
            first-lt (bytes (a + 1)) (bytes (a + 2)) (bytes (a + 3)) (bytes (a + 4)) (group-lt 0)
            (group-lt 1) (group-lt 2) width span value))

  pub switch_4-lsb_4 :
      (r : ℕ)
      → Holds mem a c 4
      → off ≢ 0
      → 0 < r
      → r ≤ 8
      → bits ≡ 32 + r
      → off + bits ≡ 32 + lastbyte_bits
      → read_switch 4 lsb off bits lastbyte_bits c ≡ ok (field_lsb mem (8 * a + off) 4 r)
  unfolding read_switch field_lsb
  switch_4-lsb_4 r held unaligned some narrow width span =
      let value =
        sym (field_span mem bytes a off in_byte 3 lastbyte_bits last)
        ∙ ap (field mem (8 * a + off))
            (let e : 8 - off + 8 * 3 + lastbyte_bits ≡ 8 + 8 * 3 + r = omega arith in e)
        ∙ field-groups_last mem (8 * a + off) 3 r in
      ap ok (
        rw
          (
            first_byte mem a off c 4 held,
            held 1 (omega arith),
            held 2 (omega arith),
            held 3 (omega arith),
            held 4 (omega arith),
          )
          (LsbNarrow.read_case_4-lsb_4 off bits lastbyte_bits (last_group 4 r) r last in_byte
            unaligned (field-lt mem (shift (8 * a + off) 4) r) some narrow (mem a % 2 ^ (8 - off))
            (mem (a + 1)) (mem (a + 2)) (mem (a + 3)) (mem (a + 4)) (group 0) (group 1) (group 2)
            (group 3) first-lt (bytes (a + 1)) (bytes (a + 2)) (bytes (a + 3)) (bytes (a + 4))
            (group-lt 0) (group-lt 1) (group-lt 2) (group-lt 3) width span value))
