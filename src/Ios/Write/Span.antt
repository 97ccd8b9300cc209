-- ===== src/Ios/Write/Span.antt =====
-- A buffer of several bytes written over a memory: the field holds the value.
use native.Mathlib.Nat.{
  one-le-pow, div-div-eq-div-mul, add-mul-mod_self_right, add-mul-div_right, mod-eq_of_lt,
  div-eq_of_lt, div-lt_iff_lt-mul, mod-lt, mul-le-mul_right, add-zero, zero-add,
}
use native.Mathlib.Decide.{dec_lt}
use poke.Base.{
  ℕ, zero, suc, ◌+◌, ◌-◌, ◌*◌, ◌/◌, ◌%◌, ◌^◌, ◌≤◌, ◌<◌, ◌≡◌, ◌⊎◌, inl, inr, ◌∙◌, sym, ap, ap₂,
  arith, pow-add, List, get_or,
}
use poke.Iod.{overlay}
use poke.Ios.Field.{IsBytes, field, field_span, head_bytes, bit_at}
use poke.Ios.Write.Bytes.{Buffer, eight_split}
use poke.Ios.Write.Stored.{keeps_lem, overlay_in, overlay_out}

-- A high and a low part of eight bits make a byte.
pub parts-lt : (n x y : ℕ) → n ≤ 8 → x < 2 ^ n → y < 2 ^ (8 - n) → x * 2 ^ (8 - n) + y < 256
parts-lt n x y h hx hy = omega (
  arith,
  eight_split n h,
  mul-le-mul_right {m = x} {n = 2 ^ n - 1} (2 ^ (8 - n)) (omega arith),
  ap (λ (k : ℕ). k * 2 ^ (8 - n)) (let e : 2 ^ n ≡ (2 ^ n - 1) + 1 = omega arith in e),
)

pub top-lt : (c n : ℕ) → n ≤ 8 → c < 256 → c / 2 ^ (8 - n) < 2 ^ n
top-lt c n h hc =
    (div-lt_iff_lt-mul {k = 2 ^ (8 - n)} (one-le-pow (8 - n) 2 (omega arith))).1
      (omega (arith, eight_split n h))

module _ (mem : ℕ → ℕ) (bytes : IsBytes mem) (a off lb j v : ℕ) (buf : List ℕ) (in_byte : off < 8)
    (narrow : lb ≤ 8) (fits : v < 2 ^ (8 - off + (8 * j + lb)))
    (b : Buffer (mem a) (mem (a + suc j)) off lb j v buf) where
  abbrev mem' : ℕ → ℕ
  mem' = overlay mem a buf

  inside : (i : ℕ) → i < suc (suc j) → mem' (a + i) ≡ get_or buf i 0
  inside i h = overlay_in mem a buf i (omega (arith, b.len))

  outside : (i : ℕ) → (i < a) ⊎ (a + suc j < i) → mem' i ≡ mem i
  outside i (inl h) = overlay_out mem a buf i (inl h)
  outside i (inr h) = overlay_out mem a buf i (inr (omega (arith, b.len)))

  top_small : v / 2 ^ (8 * j + lb) < 2 ^ (8 - off)
  top_small =
      (div-lt_iff_lt-mul {k = 2 ^ (8 * j + lb)} (one-le-pow (8 * j + lb) 2 (omega arith))).1
        (omega (arith, pow-add (8 - off) (8 * j + lb)))

  buf-lt : (i : ℕ) → i < suc (suc j) → get_or buf i 0 < 256
  buf-lt zero h = rw b.first (
      parts-lt off (mem a / 2 ^ (8 - off)) (v / 2 ^ (8 * j + lb)) (omega arith)
        (top-lt (mem a) off (omega arith) (bytes a)) top_small)
  buf-lt (suc i) h = elim (dec_lt i j) [
    | yes q ↦ rw (b.mid i q) (omega arith)
    | no q ↦
        rw (let e : i ≡ j = omega arith in e, b.last)
          (parts-lt lb (v % 2 ^ lb) (mem (a + suc j) % 2 ^ (8 - lb)) narrow
            (mod-lt v (one-le-pow lb 2 (omega arith)))
            (mod-lt (mem (a + suc j)) (one-le-pow (8 - lb) 2 (omega arith))))
  ]

  pub span-IsBytes : IsBytes mem'
  span-IsBytes i = elim (dec_lt i a) [
    | yes q ↦ rw (outside i (inl q)) (bytes i)
    | no q ↦ elim (dec_lt (a + suc j) i) [
      | yes r ↦ rw (outside i (inr r)) (bytes i)
      | no r ↦
          let m = i - a in
          rw (let e : i ≡ a + m = omega arith in e, inside m (omega arith)) (buf-lt m (omega arith))
    ]
  ]

  first : mem' a ≡ mem a / 2 ^ (8 - off) * 2 ^ (8 - off) + v / 2 ^ (8 * j + lb)
  first = ap mem' (sym (add-zero a)) ∙ inside 0 (omega arith) ∙ b.first

  last : mem' (a + suc j) ≡ v % 2 ^ lb * 2 ^ (8 - lb) + mem (a + suc j) % 2 ^ (8 - lb)
  last = inside (suc j) (omega arith) ∙ b.last

  head : (i : ℕ) → i ≤ j → head_bytes mem' a off i ≡ v / 2 ^ (8 * (j - i) + lb)
  head zero h =
      let n = 8 - off in
      ap (λ x. x % 2 ^ n) first
      ∙ ap (λ x. x % 2 ^ n)
          (let e : mem a / 2 ^ n * 2 ^ n + v / 2 ^ (8 * j + lb)
                ≡ v / 2 ^ (8 * j + lb) + mem a / 2 ^ n * 2 ^ n =
              omega arith in
            e)
      ∙ add-mul-mod_self_right (v / 2 ^ (8 * j + lb)) (mem a / 2 ^ n) (2 ^ n)
      ∙ mod-eq_of_lt top_small
      ∙ ap (λ x. v / 2 ^ (8 * x + lb)) (omega arith)
  head (suc i) h =
      let s = 8 * (j - suc i) + lb in
      ap₂ (λ x y. x * 256 + y) (head i (omega arith))
        (inside (suc i) (omega arith) ∙ b.mid i (omega arith))
      ∙ ap (λ x. x * 256 + v / 2 ^ s % 256)
          (ap (λ x. v / x)
              (ap (λ (x : ℕ). 2 ^ x) (let e : 8 * (j - i) + lb ≡ s + 8 = omega arith in e)
                ∙ pow-add s 8)
            ∙ sym (div-div-eq-div-mul v (2 ^ s) (2 ^ 8)))
      ∙ omega arith

  -- The field holds the value.
  pub span-field : field mem' (8 * a + off) (8 - off + 8 * j + lb) ≡ v
  span-field =
      let p = 2 ^ (8 - lb) in
      let pos : 0 < p = one-le-pow (8 - lb) 2 (omega arith) in
      field_span mem' span-IsBytes a off in_byte j lb narrow
      ∙ ap₂ (λ h t. h * 2 ^ lb + t)
          (head j (omega arith)
            ∙ ap (λ x. v / 2 ^ x) (let e : 8 * (j - j) + lb ≡ lb = omega arith in e))
          (ap (λ x. x / p)
              (last
                ∙ (let e : v % 2 ^ lb * p + mem (a + suc j) % p
                        ≡ mem (a + suc j) % p + v % 2 ^ lb * p =
                      omega arith in
                    e))
            ∙ add-mul-div_right (mem (a + suc j) % p) (v % 2 ^ lb) pos
            ∙ ap (λ x. x + v % 2 ^ lb) (div-eq_of_lt (mod-lt (mem (a + suc j)) pos)))
      ∙ omega arith

  -- No other bit changes.
  pub span_keeps :
      (p : ℕ) → (p < 8 * a + off) ⊎ (8 * (a + suc j) + lb ≤ p) → bit_at mem' p ≡ bit_at mem p
  span_keeps =
      let n = 8 - off in
      let m = 8 - lb in
      let pos : 0 < 2 ^ n = one-le-pow n 2 (omega arith) in
      keeps_lem mem mem' a off (suc j) lb in_byte narrow outside
        (ap (λ x. x / 2 ^ n)
            (first
              ∙ (let e : mem a / 2 ^ n * 2 ^ n + v / 2 ^ (8 * j + lb)
                      ≡ v / 2 ^ (8 * j + lb) + mem a / 2 ^ n * 2 ^ n =
                    omega arith in
                  e))
          ∙ add-mul-div_right (v / 2 ^ (8 * j + lb)) (mem a / 2 ^ n) pos
          ∙ ap (λ x. x + mem a / 2 ^ n) (div-eq_of_lt top_small)
          ∙ zero-add (mem a / 2 ^ n))
        (ap (λ x. x % 2 ^ m)
            (last
              ∙ (let e : v % 2 ^ lb * 2 ^ m + mem (a + suc j) % 2 ^ m
                      ≡ mem (a + suc j) % 2 ^ m + v % 2 ^ lb * 2 ^ m =
                    omega arith in
                  e))
          ∙ add-mul-mod_self_right (mem (a + suc j) % 2 ^ m) (v % 2 ^ lb) (2 ^ m)
          ∙ mod-eq_of_lt (mod-lt (mem (a + suc j)) (one-le-pow m 2 (omega arith))))
