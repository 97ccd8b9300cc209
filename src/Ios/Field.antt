-- ===== src/Ios/Field.antt =====
-- What an integer of an IO space is, with no machine words: bits are numbered from the most
-- significant bit of byte 0 on. This is the description that the code of ios.c is held against.
use native.Mathlib.Nat.{
  one-le-pow, mod-lt, div-add-mod', add-zero, add-suc, add_assoc, pow-suc, div-div-eq-div-mul,
  add-mul-mod_self_right, mod-eq_of_lt, div-one,
}
use poke.Base.{
  ℕ, zero, suc, ◌+◌, ◌-◌, ◌*◌, ◌/◌, ◌%◌, ◌^◌, ◌≤◌, ◌<◌, ◌≡◌, refl, ◌∙◌, ap, ap₂, sym, arith,
  mul-pow-suc, div-pow-lt, pow-add, ltb, if◌then◌else◌,
}
use poke.Ios.Word.{Endian, lsb, msb}

-- The bit `p` of a memory of bytes.
abbrev pub bit_at : (ℕ → ℕ) → ℕ → ℕ
bit_at mem p = mem (p / 8) / 2 ^ (7 - p % 8) % 2

-- The `n` bits from bit `pos` on, the first one the most significant.
unfoldable pub field : (ℕ → ℕ) → ℕ → ℕ → ℕ
field mem pos zero = 0
field mem pos (suc n) = 2 * field mem pos n + bit_at mem (pos + n)

-- A little endian integer of `q` whole groups of eight bits and a last group of `r` bits, which is
-- the most significant one.
unfoldable pub field_lsb : (ℕ → ℕ) → ℕ → ℕ → ℕ → ℕ
field_lsb mem pos zero r = field mem pos r
field_lsb mem pos (suc q) r = field mem pos 8 + 256 * field_lsb mem (pos + 8) q r

-- Each byte of the memory is one.
abbrev pub IsBytes : (ℕ → ℕ) → Type 0
IsBytes mem = (i : ℕ) → mem i < 256

pub field-split :
    (mem : ℕ → ℕ) (pos m n : ℕ)
    → field mem pos (m + n) ≡ field mem pos m * 2 ^ n + field mem (pos + m) n
unfolding field
field-split mem pos m zero = rw (add-zero m) (omega arith)
field-split mem pos m (suc n) = rw (add-suc m n) (
    omega (
      arith,
      field-split mem pos m n,
      mul-pow-suc (field mem pos m) n,
      ap (bit_at mem) (add_assoc pos m n),
    ))

pub field-lt : (mem : ℕ → ℕ) (pos n : ℕ) → field mem pos n < 2 ^ n
unfolding field
field-lt mem pos zero = omega arith
field-lt mem pos (suc n) = omega (arith, field-lt mem pos n, pow-suc 2 n)

div-pow-suc : (b e : ℕ) → b / 2 ^ suc e ≡ b / 2 ^ e / 2
div-pow-suc b e = ap (λ d. b / d) (pow-suc 2 e) ∙ sym (div-div-eq-div-mul b (2 ^ e) 2)

mod-pow-suc : (t n : ℕ) → t % 2 ^ suc n ≡ 2 * (t / 2 % 2 ^ n) + t % 2
mod-pow-suc t n =
    let p = 2 ^ n in
    let d = t / 2 / p in
    let split : t ≡ 2 * (t / 2 % p) + t % 2 + d * (p * 2) =
      omega (arith, div-add-mod' (t / 2) p, ap (λ (x : ℕ). 2 * x) (div-add-mod' (t / 2) p)) in
    let fits : 2 * (t / 2 % p) + t % 2 < p * 2 =
      omega (arith, mod-lt (t / 2) {m = p} (one-le-pow n 2 (omega arith))) in
    rw (pow-suc 2 n)
      (ap (λ x. x % (p * 2)) split ∙ add-mul-mod_self_right _ d (p * 2) ∙ mod-eq_of_lt fits)

pub field-byte :
    (mem : ℕ → ℕ) (a off n : ℕ)
    → off + n ≤ 8
    → field mem (8 * a + off) n ≡ mem a / 2 ^ (8 - off - n) % 2 ^ n
unfolding field
field-byte mem a off zero h = omega arith
field-byte mem a off (suc n) h =
    let e = 7 - (off + n) in
    let at : (8 * a + off + n) / 8 ≡ a = omega arith in
    let place : 7 - (8 * a + off + n) % 8 ≡ e = omega arith in
    let below : 8 - off - n ≡ suc e = omega arith in
    let here : 8 - off - suc n ≡ e = omega arith in
    rw (field-byte mem a off n (omega arith), at, place, below, here)
      (rw (mod-pow-suc (mem a / 2 ^ e) n, div-pow-suc (mem a) e) refl)

module _ (mem : ℕ → ℕ) (a off : ℕ) where
  -- The bits from `off` on of byte `a`, and the `k` bytes behind it.
  abbrev pub head_bytes : ℕ → ℕ
  head_bytes zero = mem a % 2 ^ (8 - off)
  head_bytes (suc k) = head_bytes k * 256 + mem (a + suc k)

module _ (mem : ℕ → ℕ) (bytes : IsBytes mem) where
  -- A field that starts at a byte and ends in it.
  pub field_last : (a n : ℕ) → n ≤ 8 → field mem (8 * a) n ≡ mem a / 2 ^ (8 - n)
  field_last a n h =
      ap (λ p. field mem p n) (let e : 8 * a ≡ 8 * a + 0 = omega arith in e)
      ∙ field-byte mem a 0 n (omega arith)
      ∙ mod-eq_of_lt
          (div-pow-lt n (8 - n) (mem a) (rw (let e : n + (8 - n) ≡ 8 = omega arith in e) (bytes a)))

  pub field_whole : (a : ℕ) → field mem (8 * a) 8 ≡ mem a
  field_whole a = field_last a 8 (omega arith) ∙ omega arith

  module _ (a off : ℕ) (in_byte : off < 8) where
    pub field_head : (k : ℕ) → field mem (8 * a + off) (8 - off + 8 * k) ≡ head_bytes mem a off k
    field_head zero =
        ap (field mem (8 * a + off)) (omega arith)
        ∙ field-byte mem a off (8 - off) (omega arith)
        ∙ ap (λ d. mem a / 2 ^ d % 2 ^ (8 - off))
            (let e : 8 - off - (8 - off) ≡ 0 = omega arith in e)
        ∙ ap (λ b. b % 2 ^ (8 - off)) (div-one (mem a))
    field_head (suc k) =
        ap (field mem (8 * a + off))
          (let e : 8 - off + 8 * suc k ≡ 8 - off + 8 * k + 8 = omega arith in e)
        ∙ field-split mem (8 * a + off) (8 - off + 8 * k) 8
        ∙ ap₂ (λ h p. h * 256 + field mem p 8) (field_head k)
            (let e : 8 * a + off + (8 - off + 8 * k) ≡ 8 * (a + suc k) = omega arith in e)
        ∙ ap (λ b. head_bytes mem a off k * 256 + b) (field_whole (a + suc k))

    -- A field that ends in another byte than the one in which it starts.
    pub field_span :
        (k lastbyte_bits : ℕ)
        → lastbyte_bits ≤ 8
        → field mem (8 * a + off) (8 - off + 8 * k + lastbyte_bits)
          ≡ head_bytes mem a off k * 2 ^ lastbyte_bits + mem (a + suc k) / 2 ^ (8 - lastbyte_bits)
    field_span k lastbyte_bits h =
        field-split mem (8 * a + off) (8 - off + 8 * k) lastbyte_bits
        ∙ ap₂ (λ h p. h * 2 ^ lastbyte_bits + field mem p lastbyte_bits) (field_head k)
            (let e : 8 * a + off + (8 - off + 8 * k) ≡ 8 * (a + suc k) = omega arith in e)
        ∙ ap (λ b. head_bytes mem a off k * 2 ^ lastbyte_bits + b)
            (field_last (a + suc k) lastbyte_bits h)

-- Bit `8 * i` from bit `pos` on.
abbrev pub shift : ℕ → ℕ → ℕ
shift pos zero = pos
shift pos (suc i) = shift pos i + 8

pub shift_lem : (pos i : ℕ) → shift pos i ≡ pos + 8 * i
shift_lem pos zero = omega arith
shift_lem pos (suc i) = omega (arith, shift_lem pos i)

module _ (mem : ℕ → ℕ) (pos : ℕ) where
  -- `q + 1` groups of eight bits, the first one the most significant.
  abbrev pub groups : ℕ → ℕ
  groups zero = field mem pos 8
  groups (suc q) = groups q * 256 + field mem (shift pos (suc q)) 8

  pub field-groups : (q : ℕ) → field mem pos (8 + 8 * q) ≡ groups q
  field-groups zero = refl
  field-groups (suc q) =
      ap (field mem pos) (let e : 8 + 8 * suc q ≡ 8 + 8 * q + 8 = omega arith in e)
      ∙ field-split mem pos (8 + 8 * q) 8
      ∙ ap₂ (λ h p. h * 256 + field mem p 8) (field-groups q)
          (let e : pos + (8 + 8 * q) ≡ shift pos (suc q) = omega (arith, shift_lem pos q) in e)

  -- A field is its whole groups and the last one.
  pub field-groups_last :
      (q r : ℕ) → field mem pos (8 + 8 * q + r) ≡ groups q * 2 ^ r + field mem (shift pos (suc q)) r
  field-groups_last q r =
      field-split mem pos (8 + 8 * q) r
      ∙ ap₂ (λ h p. h * 2 ^ r + field mem p r) (field-groups q)
          (let e : pos + (8 + 8 * q) ≡ shift pos (suc q) = omega (arith, shift_lem pos q) in e)

-- The integer of `bits` bits at bit `pos`, in a byte order.
unfoldable pub int_at : (ℕ → ℕ) → Endian → ℕ → ℕ → ℕ
int_at mem msb pos bits = field mem pos bits
int_at mem lsb pos bits = let q = (bits - 1) / 8 in field_lsb mem pos q (bits - 8 * q)

pub int_at-lsb :
    (mem : ℕ → ℕ) (pos bits q r : ℕ)
    → bits ≡ 8 * q + r
    → 0 < r
    → r ≤ 8
    → field_lsb mem pos q r ≡ int_at mem lsb pos bits
unfolding int_at
int_at-lsb mem pos bits q r e h narrow =
    ap₂ (field_lsb mem pos) (let f : q ≡ (bits - 1) / 8 = omega arith in f)
      (let f : r ≡ bits - 8 * ((bits - 1) / 8) = omega arith in f)

field_lsb-lt : (mem : ℕ → ℕ) (pos q r : ℕ) → field_lsb mem pos q r < 2 ^ (8 * q + r)
unfolding field_lsb
field_lsb-lt mem pos zero r = rw (let e : 8 * 0 + r ≡ r = omega arith in e) (field-lt mem pos r)
field_lsb-lt mem pos (suc q) r =
    rw (let e : 8 * suc q + r ≡ 8 + (8 * q + r) = omega arith in e)
      (omega (arith, field-lt mem pos 8, field_lsb-lt mem (pos + 8) q r, pow-add 8 (8 * q + r)))

-- An integer of `bits` bits is below 2 ^ bits.
pub int_at-lt :
    (mem : ℕ → ℕ) (endian : Endian) (pos bits : ℕ)
    → 0 < bits
    → int_at mem endian pos bits < 2 ^ bits
unfolding int_at
int_at-lt mem msb pos bits h = field-lt mem pos bits
int_at-lt mem lsb pos bits h =
    let q = (bits - 1) / 8 in
    omega (
      arith,
      field_lsb-lt mem pos q (bits - 8 * q),
      ap (λ (x : ℕ). 2 ^ x) (let e : 8 * q + (bits - 8 * q) ≡ bits = omega arith in e),
    )

-- The 64-bit pattern of the number that a field of `bits` bits stands for in two's complement.
abbrev pub twos : ℕ → ℕ → ℕ
twos bits v = if ltb v (2 ^ (bits - 1)) then v else v + (2 ^ 64 - 2 ^ bits)
