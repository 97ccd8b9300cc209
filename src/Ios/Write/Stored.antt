-- ===== src/Ios/Write/Stored.antt =====
-- What it is for a write to store an integer: the field holds it and no other bit changes.
use native.Mathlib.Nat.{one-le-pow, div-div-eq-div-mul, add-mul-div_left}
use native.Mathlib.Decide.{dec_lt}
use poke.Base.{
  ℕ, suc, ◌+◌, ◌-◌, ◌*◌, ◌/◌, ◌%◌, ◌^◌, ◌≤◌, ◌<◌, ◌≡◌, ◌⊎◌, inl, inr, ◌∙◌, sym, ap, arith, pow-add,
  true, false, ◌&&◌, leb, ltb, List, length, get_or,
}
use poke.Iod.{overlay}
use poke.Ios.Word.{Endian}
use poke.Ios.Field.{bit_at, int_at}

-- `mem'` holds the integer `v`, of `bits` bits at bit `pos`, and each other bit is as in `mem`.
pub record Stores (mem mem' : ℕ → ℕ) (endian : Endian) (pos bits v : ℕ) : Type 0 where
  pub holds : int_at mem' endian pos bits ≡ v
  pub keeps : (p : ℕ) → (p < pos) ⊎ (pos + bits ≤ p) → bit_at mem' p ≡ bit_at mem p

-- A bit of the low `n` bits.
low_bit : (x n e : ℕ) → e < n → x / 2 ^ e % 2 ≡ x % 2 ^ n / 2 ^ e % 2
low_bit x n e h =
    let m = n - suc e in
    let t = x % 2 ^ n in
    let d = x / 2 ^ n in
    let power : 2 ^ n ≡ 2 ^ e * (2 * 2 ^ m) =
      ap (λ (k : ℕ). 2 ^ k) (let f : n ≡ e + (1 + m) = omega arith in f)
      ∙ pow-add e (1 + m)
      ∙ ap (λ (k : ℕ). 2 ^ e * k) (pow-add 1 m) in
    ap (λ y. y / 2 ^ e % 2)
      (let f : x ≡ t + 2 ^ e * (2 * (2 ^ m * d)) = omega (arith, ap (λ (k : ℕ). d * k) power) in f)
    ∙ ap (λ y. y % 2) (add-mul-div_left t (2 * (2 ^ m * d)) (one-le-pow e 2 (omega arith)))
    ∙ omega arith

-- A bit of the high bits.
high_bit : (x n e : ℕ) → n ≤ e → x / 2 ^ e % 2 ≡ x / 2 ^ n / 2 ^ (e - n) % 2
high_bit x n e h =
    ap (λ k. x / k % 2)
      (ap (λ (k : ℕ). 2 ^ k) (let f : e ≡ n + (e - n) = omega arith in f) ∙ pow-add n (e - n))
    ∙ ap (λ k. k % 2) (sym (div-div-eq-div-mul x (2 ^ n) (2 ^ (e - n))))

module _ (mem mem' : ℕ → ℕ) (a off k lb : ℕ) (in_byte : off < 8) (narrow : lb ≤ 8)
    (outside : (i : ℕ) → (i < a) ⊎ (a + k < i) → mem' i ≡ mem i)
    (first : mem' a / 2 ^ (8 - off) ≡ mem a / 2 ^ (8 - off))
    (last : mem' (a + k) % 2 ^ (8 - lb) ≡ mem (a + k) % 2 ^ (8 - lb)) where
  same_byte : (p : ℕ) → mem' (p / 8) ≡ mem (p / 8) → bit_at mem' p ≡ bit_at mem p
  same_byte p e = ap (λ x. x / 2 ^ (7 - p % 8) % 2) e

  -- A write of the bytes from `a` to `a + k` that keeps the leading bits of the first one and the
  -- trailing bits of the last one keeps each bit that is not in the field.
  pub keeps_lem :
      (p : ℕ) → (p < 8 * a + off) ⊎ (8 * (a + k) + lb ≤ p) → bit_at mem' p ≡ bit_at mem p
  keeps_lem p (inl h) = elim (dec_lt (p / 8) a) [
    | yes q ↦ same_byte p (outside (p / 8) (inl q))
    | no q ↦
        let at : p / 8 ≡ a = omega arith in
        let e = 7 - p % 8 in
        ap (λ i. mem' i / 2 ^ e % 2) at
        ∙ high_bit (mem' a) (8 - off) e (omega arith)
        ∙ ap (λ x. x / 2 ^ (e - (8 - off)) % 2) first
        ∙ sym (high_bit (mem a) (8 - off) e (omega arith))
        ∙ ap (λ i. mem i / 2 ^ e % 2) (sym at)
  ]
  keeps_lem p (inr h) = elim (dec_lt (a + k) (p / 8)) [
    | yes q ↦ same_byte p (outside (p / 8) (inr q))
    | no q ↦
        let at : p / 8 ≡ a + k = omega arith in
        let e = 7 - p % 8 in
        ap (λ i. mem' i / 2 ^ e % 2) at
        ∙ low_bit (mem' (a + k)) (8 - lb) e (omega arith)
        ∙ ap (λ x. x / 2 ^ e % 2) last
        ∙ sym (low_bit (mem (a + k)) (8 - lb) e (omega arith))
        ∙ ap (λ i. mem i / 2 ^ e % 2) (sym at)
  ]

module _ (mem : ℕ → ℕ) (a : ℕ) (buf : List ℕ) where
  pub overlay_in : (i : ℕ) → i < length buf → overlay mem a buf (a + i) ≡ get_or buf i 0
  overlay_in i h =
      let test : (leb a (a + i) && ltb (a + i) (a + length buf)) ≡ true = ground arith in
      rw test (ap (λ k. get_or buf k 0) (let e : a + i - a ≡ i = omega arith in e))

  pub overlay_out : (i : ℕ) → (i < a) ⊎ (a + length buf ≤ i) → overlay mem a buf i ≡ mem i
  overlay_out i (inl h) =
      let test : (leb a i && ltb i (a + length buf)) ≡ false = ground arith in rw test
  overlay_out i (inr h) =
      let test : (leb a i && ltb i (a + length buf)) ≡ false = ground arith in rw test
