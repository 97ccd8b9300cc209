-- ===== src/Ios/Read/SwitchLsbWide.antt =====
-- The switch of `ios_read_int_common` at little endian: it stores the groups of eight bits, the last
-- group on top.
use native.Mathlib.Nat.{mod-lt, one-le-pow}
use poke.Base.{ℕ, ◌+◌, ◌-◌, ◌*◌, ◌%◌, ◌^◌, ◌≤◌, ◌<◌, ◌≡◌, ◌≢◌, ◌∙◌, ap, sym, arith, List}
use poke.Ios.Word.{lsb}
use poke.Ios.Field.{field, field-lt, field_lsb, IsBytes, field_span, shift, field-groups_last}
use poke.Ios.Read.Common.{ok, read_switch}
use poke.Ios.Read.LsbWide
use poke.Ios.Read.SwitchMsb.{Holds, first_byte}

module _ (mem : ℕ → ℕ) (bytes : IsBytes mem) (a off : ℕ) (in_byte : off < 8)
    (bits lastbyte_bits : ℕ) (last : lastbyte_bits ≤ 8) (c : List ℕ) where
  first-lt : mem a % 2 ^ (8 - off) < 2 ^ (8 - off)
  first-lt = mod-lt (mem a) (one-le-pow (8 - off) 2 (omega arith))

  -- The bits read, and the groups that they are taken as.
  abbrev group : ℕ → ℕ
  group i = field mem (shift (8 * a + off) i) 8

  group-lt : (i : ℕ) → group i < 256
  group-lt i = field-lt mem (shift (8 * a + off) i) 8

  abbrev last_group : ℕ → ℕ → ℕ
  last_group q r = field mem (shift (8 * a + off) q) r

  pub switch_5-lsb_4 :
      (r : ℕ)
      → Holds mem a c 5
      → off ≢ 0
      → 0 < r
      → r ≤ 8
      → bits ≡ 32 + r
      → off + bits ≡ 40 + lastbyte_bits
      → read_switch 5 lsb off bits lastbyte_bits c ≡ ok (field_lsb mem (8 * a + off) 4 r)
  unfolding read_switch field_lsb
  switch_5-lsb_4 r held unaligned some narrow width span =
      let value =
        sym (field_span mem bytes a off in_byte 4 lastbyte_bits last)
        ∙ ap (field mem (8 * a + off))
            (let e : 8 - off + 8 * 4 + lastbyte_bits ≡ 8 + 8 * 3 + r = omega arith in e)
        ∙ field-groups_last mem (8 * a + off) 3 r in
      ap ok (
        rw
          (
            first_byte mem a off c 5 held,
            held 1 (omega arith),
            held 2 (omega arith),
            held 3 (omega arith),
            held 4 (omega arith),
            held 5 (omega arith),
          )
          (LsbWide.read_case_5-lsb_4 off bits lastbyte_bits (last_group 4 r) r last in_byte
            unaligned (field-lt mem (shift (8 * a + off) 4) r) some narrow (mem a % 2 ^ (8 - off))
            (mem (a + 1)) (mem (a + 2)) (mem (a + 3)) (mem (a + 4)) (mem (a + 5)) (group 0)
            (group 1) (group 2) (group 3) first-lt (bytes (a + 1)) (bytes (a + 2)) (bytes (a + 3))
            (bytes (a + 4)) (bytes (a + 5)) (group-lt 0) (group-lt 1) (group-lt 2) (group-lt 3)
            width span value))

  pub switch_5-lsb_5 :
      (r : ℕ)
      → Holds mem a c 5
      → off ≢ 0
      → 0 < r
      → r ≤ 8
      → bits ≡ 40 + r
      → off + bits ≡ 40 + lastbyte_bits
      → read_switch 5 lsb off bits lastbyte_bits c ≡ ok (field_lsb mem (8 * a + off) 5 r)
  unfolding read_switch field_lsb
  switch_5-lsb_5 r held unaligned some narrow width span =
      let value =
        sym (field_span mem bytes a off in_byte 4 lastbyte_bits last)
        ∙ ap (field mem (8 * a + off))
            (let e : 8 - off + 8 * 4 + lastbyte_bits ≡ 8 + 8 * 4 + r = omega arith in e)
        ∙ field-groups_last mem (8 * a + off) 4 r in
      ap ok (
        rw
          (
            first_byte mem a off c 5 held,
            held 1 (omega arith),
            held 2 (omega arith),
            held 3 (omega arith),
            held 4 (omega arith),
            held 5 (omega arith),
          )
          (LsbWide.read_case_5-lsb_5 off bits lastbyte_bits (last_group 5 r) r last in_byte
            unaligned (field-lt mem (shift (8 * a + off) 5) r) some narrow (mem a % 2 ^ (8 - off))
            (mem (a + 1)) (mem (a + 2)) (mem (a + 3)) (mem (a + 4)) (mem (a + 5)) (group 0)
            (group 1) (group 2) (group 3) (group 4) first-lt (bytes (a + 1)) (bytes (a + 2))
            (bytes (a + 3)) (bytes (a + 4)) (bytes (a + 5)) (group-lt 0) (group-lt 1) (group-lt 2)
            (group-lt 3) (group-lt 4) width span value))

  pub switch_6-lsb_5 :
      (r : ℕ)
      → Holds mem a c 6
      → off ≢ 0
      → 0 < r
      → r ≤ 8
      → bits ≡ 40 + r
      → off + bits ≡ 48 + lastbyte_bits
      → read_switch 6 lsb off bits lastbyte_bits c ≡ ok (field_lsb mem (8 * a + off) 5 r)
  unfolding read_switch field_lsb
  switch_6-lsb_5 r held unaligned some narrow width span =
      let value =
        sym (field_span mem bytes a off in_byte 5 lastbyte_bits last)
        ∙ ap (field mem (8 * a + off))
            (let e : 8 - off + 8 * 5 + lastbyte_bits ≡ 8 + 8 * 4 + r = omega arith in e)
        ∙ field-groups_last mem (8 * a + off) 4 r in
      ap ok (
        rw
          (
            first_byte mem a off c 6 held,
            held 1 (omega arith),
            held 2 (omega arith),
            held 3 (omega arith),
            held 4 (omega arith),
            held 5 (omega arith),
            held 6 (omega arith),
          )
          (LsbWide.read_case_6-lsb_5 off bits lastbyte_bits (last_group 5 r) r last in_byte
            unaligned (field-lt mem (shift (8 * a + off) 5) r) some narrow (mem a % 2 ^ (8 - off))
            (mem (a + 1)) (mem (a + 2)) (mem (a + 3)) (mem (a + 4)) (mem (a + 5)) (mem (a + 6))
            (group 0) (group 1) (group 2) (group 3) (group 4) first-lt (bytes (a + 1))
            (bytes (a + 2)) (bytes (a + 3)) (bytes (a + 4)) (bytes (a + 5)) (bytes (a + 6))
            (group-lt 0) (group-lt 1) (group-lt 2) (group-lt 3) (group-lt 4) width span value))

  pub switch_6-lsb_6 :
      (r : ℕ)
      → Holds mem a c 6
      → off ≢ 0
      → 0 < r
      → r ≤ 8
      → bits ≡ 48 + r
      → off + bits ≡ 48 + lastbyte_bits
      → read_switch 6 lsb off bits lastbyte_bits c ≡ ok (field_lsb mem (8 * a + off) 6 r)
  unfolding read_switch field_lsb
  switch_6-lsb_6 r held unaligned some narrow width span =
      let value =
        sym (field_span mem bytes a off in_byte 5 lastbyte_bits last)
        ∙ ap (field mem (8 * a + off))
            (let e : 8 - off + 8 * 5 + lastbyte_bits ≡ 8 + 8 * 5 + r = omega arith in e)
        ∙ field-groups_last mem (8 * a + off) 5 r in
      ap ok (
        rw
          (
            first_byte mem a off c 6 held,
            held 1 (omega arith),
            held 2 (omega arith),
            held 3 (omega arith),
            held 4 (omega arith),
            held 5 (omega arith),
            held 6 (omega arith),
          )
          (LsbWide.read_case_6-lsb_6 off bits lastbyte_bits (last_group 6 r) r last in_byte
            unaligned (field-lt mem (shift (8 * a + off) 6) r) some narrow (mem a % 2 ^ (8 - off))
            (mem (a + 1)) (mem (a + 2)) (mem (a + 3)) (mem (a + 4)) (mem (a + 5)) (mem (a + 6))
            (group 0) (group 1) (group 2) (group 3) (group 4) (group 5) first-lt (bytes (a + 1))
            (bytes (a + 2)) (bytes (a + 3)) (bytes (a + 4)) (bytes (a + 5)) (bytes (a + 6))
            (group-lt 0) (group-lt 1) (group-lt 2) (group-lt 3) (group-lt 4) (group-lt 5) width span
            value))

  pub switch_7-lsb_6 :
      (r : ℕ)
      → Holds mem a c 7
      → off ≢ 0
      → 0 < r
      → r ≤ 8
      → bits ≡ 48 + r
      → off + bits ≡ 56 + lastbyte_bits
      → read_switch 7 lsb off bits lastbyte_bits c ≡ ok (field_lsb mem (8 * a + off) 6 r)
  unfolding read_switch field_lsb
  switch_7-lsb_6 r held unaligned some narrow width span =
      let value =
        sym (field_span mem bytes a off in_byte 6 lastbyte_bits last)
        ∙ ap (field mem (8 * a + off))
            (let e : 8 - off + 8 * 6 + lastbyte_bits ≡ 8 + 8 * 5 + r = omega arith in e)
        ∙ field-groups_last mem (8 * a + off) 5 r in
      ap ok (
        rw
          (
            first_byte mem a off c 7 held,
            held 1 (omega arith),
            held 2 (omega arith),
            held 3 (omega arith),
            held 4 (omega arith),
            held 5 (omega arith),
            held 6 (omega arith),
            held 7 (omega arith),
          )
          (LsbWide.read_case_7-lsb_6 off bits lastbyte_bits (last_group 6 r) r last in_byte
            unaligned (field-lt mem (shift (8 * a + off) 6) r) some narrow (mem a % 2 ^ (8 - off))
            (mem (a + 1)) (mem (a + 2)) (mem (a + 3)) (mem (a + 4)) (mem (a + 5)) (mem (a + 6))
            (mem (a + 7)) (group 0) (group 1) (group 2) (group 3) (group 4) (group 5) first-lt
            (bytes (a + 1)) (bytes (a + 2)) (bytes (a + 3)) (bytes (a + 4)) (bytes (a + 5))
            (bytes (a + 6)) (bytes (a + 7)) (group-lt 0) (group-lt 1) (group-lt 2) (group-lt 3)
            (group-lt 4) (group-lt 5) width span value))

  pub switch_7-lsb_7 :
      (r : ℕ)
      → Holds mem a c 7
      → off ≢ 0
      → 0 < r
      → r ≤ 8
      → bits ≡ 56 + r
      → off + bits ≡ 56 + lastbyte_bits
      → read_switch 7 lsb off bits lastbyte_bits c ≡ ok (field_lsb mem (8 * a + off) 7 r)
  unfolding read_switch field_lsb
  switch_7-lsb_7 r held unaligned some narrow width span =
      let value =
        sym (field_span mem bytes a off in_byte 6 lastbyte_bits last)
        ∙ ap (field mem (8 * a + off))
            (let e : 8 - off + 8 * 6 + lastbyte_bits ≡ 8 + 8 * 6 + r = omega arith in e)
        ∙ field-groups_last mem (8 * a + off) 6 r in
      ap ok (
        rw
          (
            first_byte mem a off c 7 held,
            held 1 (omega arith),
            held 2 (omega arith),
            held 3 (omega arith),
            held 4 (omega arith),
            held 5 (omega arith),
            held 6 (omega arith),
            held 7 (omega arith),
          )
          (LsbWide.read_case_7-lsb_7 off bits lastbyte_bits (last_group 7 r) r last in_byte
            unaligned (field-lt mem (shift (8 * a + off) 7) r) some narrow (mem a % 2 ^ (8 - off))
            (mem (a + 1)) (mem (a + 2)) (mem (a + 3)) (mem (a + 4)) (mem (a + 5)) (mem (a + 6))
            (mem (a + 7)) (group 0) (group 1) (group 2) (group 3) (group 4) (group 5) (group 6)
            first-lt (bytes (a + 1)) (bytes (a + 2)) (bytes (a + 3)) (bytes (a + 4)) (bytes (a + 5))
            (bytes (a + 6)) (bytes (a + 7)) (group-lt 0) (group-lt 1) (group-lt 2) (group-lt 3)
            (group-lt 4) (group-lt 5) (group-lt 6) width span value))
