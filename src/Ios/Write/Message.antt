-- ===== src/Ios/Write/Message.antt =====
-- What a little endian integer looks like once it is written: its groups in the order of their bytes.
use native.Mathlib.Nat.{
  mul-le-mul_right, add-mul-mod_self_right, mod-eq_of_lt, add-mul-div_right, div-eq_of_lt,
}
use poke.Base.{
  ℕ, zero, suc, ◌+◌, ◌-◌, ◌*◌, ◌/◌, ◌%◌, ◌^◌, ◌<◌, ◌≡◌, ◌∙◌, sym, ap, ap₂, arith, pow-add,
}
use native.Mathlib.Decide.{ℕ_discrete}
use poke.Ios.Word.{lsb}
use poke.Ios.Field.{field, field_lsb, field-split, field-lt, int_at, int_at-lsb}

-- The groups of `acc`, then `q` groups of eight bits of `v`, the least significant one first, then
-- the `r` bits left of `v`.
unfoldable pub message : (q r acc v : ℕ) → ℕ
message zero r acc v = acc * 2 ^ r + v
message (suc q) r acc v = message q r (acc * 256 + v % 256) (v / 256)

message-acc : (q r acc v : ℕ) → message q r acc v ≡ acc * 2 ^ (8 * q + r) + message q r 0 v
unfolding message
message-acc zero r acc v = rw (let e : 8 * 0 + r ≡ r = omega arith in e) (omega arith)
message-acc (suc q) r acc v =
    let p = 2 ^ (8 * q + r) in
    let more : 2 ^ (8 * suc q + r) ≡ 256 * p =
      ap (λ (x : ℕ). 2 ^ x) (let e : 8 * suc q + r ≡ 8 + (8 * q + r) = omega arith in e)
      ∙ pow-add 8 (8 * q + r) in
    omega (
      arith,
      message-acc q r (acc * 256 + v % 256) (v / 256),
      message-acc q r (0 * 256 + v % 256) (v / 256),
      ap (λ (x : ℕ). acc * x) more,
    )

pub message-lt : (q r v : ℕ) → v < 2 ^ (8 * q + r) → message q r 0 v < 2 ^ (8 * q + r)
unfolding message
message-lt zero r v h =
    omega (arith, ap (λ (x : ℕ). 2 ^ x) (let e : 8 * 0 + r ≡ r = omega arith in e))
message-lt (suc q) r v h =
    let p = 2 ^ (8 * q + r) in
    let more : 2 ^ (8 * suc q + r) ≡ 256 * p =
      ap (λ (x : ℕ). 2 ^ x) (let e : 8 * suc q + r ≡ 8 + (8 * q + r) = omega arith in e)
      ∙ pow-add 8 (8 * q + r) in
    rw more (
      omega (
        arith,
        message-acc q r (0 * 256 + v % 256) (v / 256),
        message-lt q r (v / 256) (omega arith),
        mul-le-mul_right {m = v % 256} {n = 255} p (omega arith),
      ))

-- A number has one high and one low part.
pub parts_unique : (p a b c d : ℕ) → a * p + b ≡ c * p + d → b < p → d < p → (a ≡ c) × (b ≡ d)
parts_unique p a b c d e hb hd =
    let low : b ≡ d =
      sym (mod-eq_of_lt hb)
      ∙ sym (add-mul-mod_self_right b a p)
      ∙ ap (λ x. x % p) (let f : b + a * p ≡ d + c * p = omega arith in f)
      ∙ add-mul-mod_self_right d c p
      ∙ mod-eq_of_lt hd in
    let none_below : 0 < p = omega arith in
    (
      quotient a b hb none_below
          ∙ ap (λ x. x / p) (let f : b + a * p ≡ d + c * p = omega arith in f)
          ∙ sym (quotient c d hd none_below),
      low,
    )
  where
    quotient : (x y : ℕ) → y < p → 0 < p → x ≡ (y + x * p) / p
    quotient x y h pos = omega (arith, add-mul-div_right y x pos, div-eq_of_lt h)

-- A memory whose bits are those of the message holds the integer.
pub field_lsb-message :
    (mem : ℕ → ℕ) (q r pos v : ℕ)
    → v < 2 ^ (8 * q + r)
    → field mem pos (8 * q + r) ≡ message q r 0 v
    → field_lsb mem pos q r ≡ v
unfolding message field_lsb
field_lsb-message mem zero r pos v h e =
    ap (field mem pos) (let f : r ≡ 8 * 0 + r = omega arith in f) ∙ e ∙ omega arith
field_lsb-message mem (suc q) r pos v h e =
    let n = 8 * q + r in
    let more : 8 * suc q + r ≡ 8 + n = omega arith in
    let small : v / 256 < 2 ^ n = omega (arith, pow-add 8 n, ap (λ (x : ℕ). 2 ^ x) more) in
    let parts =
      parts_unique (2 ^ n) (field mem pos 8) (field mem (pos + 8) n) (v % 256)
        (message q r 0 (v / 256))
        (sym (field-split mem pos 8 n)
          ∙ ap (field mem pos) (sym more)
          ∙ e
          ∙ message-acc q r (0 * 256 + v % 256) (v / 256)
          ∙ omega arith)
        (field-lt mem (pos + 8) n) (message-lt q r (v / 256) small) in
    omega (arith, parts.0, field_lsb-message mem q r (pos + 8) (v / 256) small parts.1)

pub field_lsb-last : (mem : ℕ → ℕ) (q pos : ℕ) → field_lsb mem pos (suc q) 0 ≡ field_lsb mem pos q 8
unfolding field_lsb field
field_lsb-last mem zero pos = omega arith
field_lsb-last mem (suc q) pos =
    ap (λ x. field mem pos 8 + 256 * x) (field_lsb-last mem q (pos + 8))

-- The same of the integer of `bits` bits, which has `bits / 8` whole groups.
pub int_at-message :
    (mem : ℕ → ℕ) (bits pos v : ℕ)
    → 0 < bits
    → v < 2 ^ bits
    → field mem pos bits ≡ message (bits / 8) (bits % 8) 0 v
    → int_at mem lsb pos bits ≡ v
int_at-message mem bits pos v some h e =
    let whole : bits ≡ 8 * (bits / 8) + bits % 8 = omega arith in
    let held : field_lsb mem pos (bits / 8) (bits % 8) ≡ v =
      field_lsb-message mem (bits / 8) (bits % 8) pos v (omega (arith, ap (λ (x : ℕ). 2 ^ x) whole))
        (ap (field mem pos) (sym whole) ∙ e) in
    elim (ℕ_discrete (bits % 8) 0) [
      | yes z ↦
          let q = bits / 8 - 1 in
          sym (int_at-lsb mem pos bits q 8 (omega arith) (omega arith) (omega arith))
          ∙ sym (field_lsb-last mem q pos)
          ∙ ap₂ (field_lsb mem pos) (let f : suc q ≡ bits / 8 = omega arith in f) (sym z)
          ∙ held
      | no nz ↦
          sym (int_at-lsb mem pos bits (bits / 8) (bits % 8) whole (omega arith) (omega arith))
          ∙ held
    ]
