-- ===== src/Ios/Read/SwitchMsb.antt =====
-- The switch of `ios_read_int_common` at big endian: it stores the field.
use native.Mathlib.Nat.{mul-add-div_right, div-eq_of_lt, one-le-pow, add-zero, mod-lt}
use poke.Base.{ℕ, ◌+◌, ◌-◌, ◌*◌, ◌/◌, ◌%◌, ◌^◌, ◌≤◌, ◌<◌, ◌≡◌, ◌∙◌, ap, sym, arith, List, get_or}
use poke.Ios.Word.{msb, get_lsb, get_lsb-eq}
use poke.Ios.Field.{field, field-lt, field-split, IsBytes, field_head, field_span}
use poke.Ios.Read.Common.{ok, read_switch}
use poke.Ios.Read.Narrow.{read_case_0}
use poke.Ios.Read.Msb

-- `c` holds the bytes of `mem` from byte `a` on, up to byte `a + k`.
abbrev pub Holds : (ℕ → ℕ) → ℕ → List ℕ → ℕ → Type 0
Holds mem a c k = (i : ℕ) → i ≤ k → get_or c i 0 ≡ mem (a + i)

pub first_byte :
    (mem : ℕ → ℕ) (a off : ℕ) (c : List ℕ) (k : ℕ)
    → Holds mem a c k
    → get_lsb (get_or c 0 0) (8 - off) ≡ mem a % 2 ^ (8 - off)
first_byte mem a off c k held =
    ap (λ x. get_lsb x (8 - off)) (held 0 (omega arith) ∙ ap mem (add-zero a))
    ∙ get_lsb-eq (mem a) (8 - off) (omega arith)

module _ (mem : ℕ → ℕ) (bytes : IsBytes mem) (a off : ℕ) (in_byte : off < 8)
    (bits lastbyte_bits : ℕ) (last : lastbyte_bits ≤ 8) (c : List ℕ) where
  first-lt : mem a % 2 ^ (8 - off) < 2 ^ (8 - off)
  first-lt = mod-lt (mem a) (one-le-pow (8 - off) 2 (omega arith))

  -- One byte: whatever the byte order.
  pub read_case_0_lem :
      Holds mem a c 0
      → off + bits ≡ lastbyte_bits
      → read_case_0 lastbyte_bits (get_lsb (get_or c 0 0) (8 - off)) ≡ field mem (8 * a + off) bits
  unfolding read_case_0
  read_case_0_lem held width =
      let d = 2 ^ (8 - lastbyte_bits) in
      let pos : 0 < d = one-le-pow (8 - lastbyte_bits) 2 (omega arith) in
      let tail = field mem (8 * a + off + bits) (8 - lastbyte_bits) in
      ap (λ x. x / d)
        (first_byte mem a off c 0 held
          ∙ sym (field_head mem bytes a off in_byte 0)
          ∙ ap (field mem (8 * a + off))
              (let e : 8 - off + 8 * 0 ≡ bits + (8 - lastbyte_bits) = omega arith in e)
          ∙ field-split mem (8 * a + off) bits (8 - lastbyte_bits))
      ∙ mul-add-div_right pos (field mem (8 * a + off) bits) tail
      ∙ ap (λ x. field mem (8 * a + off) bits + x)
          (div-eq_of_lt (field-lt mem (8 * a + off + bits) (8 - lastbyte_bits)))
      ∙ add-zero (field mem (8 * a + off) bits)

  pub switch_0-msb :
      Holds mem a c 0
      → off + bits ≡ lastbyte_bits
      → read_switch 0 msb off bits lastbyte_bits c ≡ ok (field mem (8 * a + off) bits)
  unfolding read_switch
  switch_0-msb held width = ap ok (read_case_0_lem held width)

  pub switch_1-msb :
      Holds mem a c 1
      → off + bits ≡ 8 + lastbyte_bits
      → read_switch 1 msb off bits lastbyte_bits c ≡ ok (field mem (8 * a + off) bits)
  unfolding read_switch
  switch_1-msb held width = ap ok (
      rw (first_byte mem a off c 1 held, held 1 (omega arith))
        (Msb.read_case_1-msb off bits lastbyte_bits (8 - off) last (omega arith)
            (mem a % 2 ^ (8 - off)) (mem (a + 1)) first-lt (bytes (a + 1))
          ∙ sym (field_span mem bytes a off in_byte 0 lastbyte_bits last)
          ∙ ap (field mem (8 * a + off))
              (let e : 8 - off + 8 * 0 + lastbyte_bits ≡ bits = omega arith in e)))

  pub switch_2-msb :
      Holds mem a c 2
      → off + bits ≡ 16 + lastbyte_bits
      → read_switch 2 msb off bits lastbyte_bits c ≡ ok (field mem (8 * a + off) bits)
  unfolding read_switch
  switch_2-msb held width = ap ok (
      rw (first_byte mem a off c 2 held, held 1 (omega arith), held 2 (omega arith))
        (Msb.read_case_2-msb off bits lastbyte_bits (8 - off) last (omega arith)
            (mem a % 2 ^ (8 - off)) (mem (a + 1)) (mem (a + 2)) first-lt (bytes (a + 1))
            (bytes (a + 2))
          ∙ sym (field_span mem bytes a off in_byte 1 lastbyte_bits last)
          ∙ ap (field mem (8 * a + off))
              (let e : 8 - off + 8 * 1 + lastbyte_bits ≡ bits = omega arith in e)))

  pub switch_3-msb :
      Holds mem a c 3
      → off + bits ≡ 24 + lastbyte_bits
      → 8 - off + lastbyte_bits ≤ 15
      → read_switch 3 msb off bits lastbyte_bits c ≡ ok (field mem (8 * a + off) bits)
  unfolding read_switch
  switch_3-msb held width low = ap ok (
      rw
        (
          first_byte mem a off c 3 held,
          held 1 (omega arith),
          held 2 (omega arith),
          held 3 (omega arith),
        )
        (Msb.read_case_3-msb off bits lastbyte_bits (8 - off) last (omega arith)
            (mem a % 2 ^ (8 - off)) (mem (a + 1)) (mem (a + 2)) (mem (a + 3)) first-lt
            (bytes (a + 1)) (bytes (a + 2)) (bytes (a + 3)) low
          ∙ sym (field_span mem bytes a off in_byte 2 lastbyte_bits last)
          ∙ ap (field mem (8 * a + off))
              (let e : 8 - off + 8 * 2 + lastbyte_bits ≡ bits = omega arith in e)))

  pub switch_4-msb :
      Holds mem a c 4
      → off + bits ≡ 32 + lastbyte_bits
      → read_switch 4 msb off bits lastbyte_bits c ≡ ok (field mem (8 * a + off) bits)
  unfolding read_switch
  switch_4-msb held width = ap ok (
      rw
        (
          first_byte mem a off c 4 held,
          held 1 (omega arith),
          held 2 (omega arith),
          held 3 (omega arith),
          held 4 (omega arith),
        )
        (Msb.read_case_4-msb off bits lastbyte_bits (8 - off) last (omega arith)
            (mem a % 2 ^ (8 - off)) (mem (a + 1)) (mem (a + 2)) (mem (a + 3)) (mem (a + 4)) first-lt
            (bytes (a + 1)) (bytes (a + 2)) (bytes (a + 3)) (bytes (a + 4))
          ∙ sym (field_span mem bytes a off in_byte 3 lastbyte_bits last)
          ∙ ap (field mem (8 * a + off))
              (let e : 8 - off + 8 * 3 + lastbyte_bits ≡ bits = omega arith in e)))

  pub switch_5-msb :
      Holds mem a c 5
      → off + bits ≡ 40 + lastbyte_bits
      → read_switch 5 msb off bits lastbyte_bits c ≡ ok (field mem (8 * a + off) bits)
  unfolding read_switch
  switch_5-msb held width = ap ok (
      rw
        (
          first_byte mem a off c 5 held,
          held 1 (omega arith),
          held 2 (omega arith),
          held 3 (omega arith),
          held 4 (omega arith),
          held 5 (omega arith),
        )
        (Msb.read_case_5-msb off bits lastbyte_bits (8 - off) last (omega arith)
            (mem a % 2 ^ (8 - off)) (mem (a + 1)) (mem (a + 2)) (mem (a + 3)) (mem (a + 4))
            (mem (a + 5)) first-lt (bytes (a + 1)) (bytes (a + 2)) (bytes (a + 3)) (bytes (a + 4))
            (bytes (a + 5))
          ∙ sym (field_span mem bytes a off in_byte 4 lastbyte_bits last)
          ∙ ap (field mem (8 * a + off))
              (let e : 8 - off + 8 * 4 + lastbyte_bits ≡ bits = omega arith in e)))

  pub switch_6-msb :
      Holds mem a c 6
      → off + bits ≡ 48 + lastbyte_bits
      → read_switch 6 msb off bits lastbyte_bits c ≡ ok (field mem (8 * a + off) bits)
  unfolding read_switch
  switch_6-msb held width = ap ok (
      rw
        (
          first_byte mem a off c 6 held,
          held 1 (omega arith),
          held 2 (omega arith),
          held 3 (omega arith),
          held 4 (omega arith),
          held 5 (omega arith),
          held 6 (omega arith),
        )
        (Msb.read_case_6-msb off bits lastbyte_bits (8 - off) last (omega arith)
            (mem a % 2 ^ (8 - off)) (mem (a + 1)) (mem (a + 2)) (mem (a + 3)) (mem (a + 4))
            (mem (a + 5)) (mem (a + 6)) first-lt (bytes (a + 1)) (bytes (a + 2)) (bytes (a + 3))
            (bytes (a + 4)) (bytes (a + 5)) (bytes (a + 6))
          ∙ sym (field_span mem bytes a off in_byte 5 lastbyte_bits last)
          ∙ ap (field mem (8 * a + off))
              (let e : 8 - off + 8 * 5 + lastbyte_bits ≡ bits = omega arith in e)))

  pub switch_7-msb :
      Holds mem a c 7
      → off + bits ≡ 56 + lastbyte_bits
      → read_switch 7 msb off bits lastbyte_bits c ≡ ok (field mem (8 * a + off) bits)
  unfolding read_switch
  switch_7-msb held width = ap ok (
      rw
        (
          first_byte mem a off c 7 held,
          held 1 (omega arith),
          held 2 (omega arith),
          held 3 (omega arith),
          held 4 (omega arith),
          held 5 (omega arith),
          held 6 (omega arith),
          held 7 (omega arith),
        )
        (Msb.read_case_7-msb off bits lastbyte_bits (8 - off) last (omega arith)
            (mem a % 2 ^ (8 - off)) (mem (a + 1)) (mem (a + 2)) (mem (a + 3)) (mem (a + 4))
            (mem (a + 5)) (mem (a + 6)) (mem (a + 7)) first-lt (bytes (a + 1)) (bytes (a + 2))
            (bytes (a + 3)) (bytes (a + 4)) (bytes (a + 5)) (bytes (a + 6)) (bytes (a + 7))
          ∙ sym (field_span mem bytes a off in_byte 6 lastbyte_bits last)
          ∙ ap (field mem (8 * a + off))
              (let e : 8 - off + 8 * 6 + lastbyte_bits ≡ bits = omega arith in e)))

  pub switch_8-msb :
      Holds mem a c 8
      → off + bits ≡ 64 + lastbyte_bits
      → bits ≤ 64
      → read_switch 8 msb off bits lastbyte_bits c ≡ ok (field mem (8 * a + off) bits)
  unfolding read_switch
  switch_8-msb held width low = ap ok (
      rw
        (
          first_byte mem a off c 8 held,
          held 1 (omega arith),
          held 2 (omega arith),
          held 3 (omega arith),
          held 4 (omega arith),
          held 5 (omega arith),
          held 6 (omega arith),
          held 7 (omega arith),
          held 8 (omega arith),
        )
        (Msb.read_case_8-msb off bits lastbyte_bits (8 - off) last (omega arith)
            (mem a % 2 ^ (8 - off)) (mem (a + 1)) (mem (a + 2)) (mem (a + 3)) (mem (a + 4))
            (mem (a + 5)) (mem (a + 6)) (mem (a + 7)) (mem (a + 8)) first-lt (bytes (a + 1))
            (bytes (a + 2)) (bytes (a + 3)) (bytes (a + 4)) (bytes (a + 5)) (bytes (a + 6))
            (bytes (a + 7)) (bytes (a + 8)) (omega arith)
          ∙ sym (field_span mem bytes a off in_byte 7 lastbyte_bits last)
          ∙ ap (field mem (8 * a + off))
              (let e : 8 - off + 8 * 7 + lastbyte_bits ≡ bits = omega arith in e)))
