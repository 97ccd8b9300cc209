-- ===== src/Ios/Write/Single.antt =====
-- `case 0` of `ios_write_int_common` (libpoke/ios.c): an integer inside one byte.
use native.Mathlib.Nat.{
  one-le-pow, add-mul-mod_self_right, mod-eq_of_lt, mod-lt, add-mul-div_right, div-eq_of_lt,
  zero-add, add-zero, mul-le-mul_right,
}
use Prim.Native.Nat.{bit_or}
use poke.Base.{
  ℕ, ◌+◌, ◌-◌, ◌*◌, ◌/◌, ◌%◌, ◌^◌, ◌≤◌, ◌<◌, ◌≡◌, ◌∙◌, sym, ap, ap₂, arith, pow-add, bit_or_fields,
  bit_or_split, bit_or-zero,
}
use poke.Ios.Word.{shl64, shl64-exact, get_lsb, get_msb, get_lsb-eq, get_msb-eq, ◌|||◌}
use poke.Ios.Write.Span.{parts-lt, top-lt}

module _ (c off bits v : ℕ) (byte : c < 256) (some : 0 < bits) (one : off + bits ≤ 8)
    (fits : v < 2 ^ bits) where
  -- The bits behind the field, and the field with the bits ahead of it.
  abbrev rest : ℕ
  rest = 8 - (off + bits)

  abbrev ahead : ℕ
  ahead = c / 2 ^ (8 - off) * 2 ^ bits + v

  -- The byte that is written.
  abbrev pub single : ℕ
  single = ahead * 2 ^ rest + c % 2 ^ rest

  split_off : 2 ^ (8 - off) ≡ 2 ^ bits * 2 ^ rest
  split_off =
      ap (λ (x : ℕ). 2 ^ x) (let e : 8 - off ≡ bits + rest = omega arith in e) ∙ pow-add bits rest

  ahead-lt : ahead < 2 ^ (off + bits)
  ahead-lt = omega (
    arith,
    fits,
    pow-add off bits,
    mul-le-mul_right {m = c / 2 ^ (8 - off)} {n = 2 ^ off - 1} (2 ^ bits)
        (omega (arith, top-lt c off (omega arith) byte)),
    ap (λ (k : ℕ). k * 2 ^ bits)
        (let e : 2 ^ off ≡ (2 ^ off - 1) + 1 = omega (arith, one-le-pow off 2) in e),
  )

  pub single-lt : single < 256
  single-lt =
      parts-lt (off + bits) ahead (c % 2 ^ rest) one ahead-lt
        (mod-lt c (one-le-pow rest 2 (omega arith)))

  pub single_lem :
      (get_msb c off ||| get_lsb c (8 - (off + bits)) ||| shl64 v (8 - (off + bits))) % 256 ≡ single
  single_lem =
      let pos : 0 < 2 ^ rest = one-le-pow rest 2 (omega arith) in
      let tail = c % 2 ^ rest in
      let hi = c / 2 ^ (8 - off) in
      let kept : (get_msb c off ||| get_lsb c rest) ≡ hi * 2 ^ bits * 2 ^ rest + tail =
        ap₂ bit_or (get_msb-eq c off byte ∙ omega (arith, ap (λ (x : ℕ). hi * x) split_off))
          (get_lsb-eq c rest (omega arith))
        ∙ bit_or_fields rest (hi * 2 ^ bits) tail (mod-lt c pos) in
      ap (λ x. x % 256)
        (ap₂ bit_or kept
            (shl64-exact bits v rest fits (omega arith) ∙ sym (add-zero (v * 2 ^ rest)))
          ∙ bit_or_split rest (hi * 2 ^ bits) v tail 0 (mod-lt c pos) pos
          ∙ ap₂ (λ x y. x * 2 ^ rest + y) (bit_or_fields bits hi v fits) (bit_or-zero tail))
      ∙ mod-eq_of_lt single-lt

  -- The field of it, and what is kept.
  pub single-field : single / 2 ^ (8 - off - bits) % 2 ^ bits ≡ v
  single-field =
      let pos : 0 < 2 ^ rest = one-le-pow rest 2 (omega arith) in
      ap (λ x. single / 2 ^ x % 2 ^ bits) (let e : 8 - off - bits ≡ rest = omega arith in e)
      ∙ ap (λ x. x % 2 ^ bits)
          (ap (λ x. x / 2 ^ rest)
              (let e : single ≡ c % 2 ^ rest + ahead * 2 ^ rest = omega arith in e)
            ∙ add-mul-div_right (c % 2 ^ rest) ahead pos
            ∙ ap (λ x. x + ahead) (div-eq_of_lt (mod-lt c pos))
            ∙ (let e : 0 + ahead ≡ v + c / 2 ^ (8 - off) * 2 ^ bits = omega arith in e))
      ∙ add-mul-mod_self_right v (c / 2 ^ (8 - off)) (2 ^ bits)
      ∙ mod-eq_of_lt fits

  pub single_first : single / 2 ^ (8 - off) ≡ c / 2 ^ (8 - off)
  single_first =
      let p = 2 ^ (8 - off) in
      let low : v * 2 ^ rest + c % 2 ^ rest < p = omega (
        arith,
        split_off,
        mul-le-mul_right {m = v} {n = 2 ^ bits - 1} (2 ^ rest) (omega arith),
        mod-lt c (one-le-pow rest 2 (omega arith)),
        ap (λ (k : ℕ). k * 2 ^ rest) (let e : 2 ^ bits ≡ (2 ^ bits - 1) + 1 = omega arith in e),
      ) in
      ap (λ x. x / p)
        (let e : single ≡ v * 2 ^ rest + c % 2 ^ rest + c / p * p =
            omega (arith, ap (λ (x : ℕ). c / p * x) split_off) in
          e)
      ∙ add-mul-div_right (v * 2 ^ rest + c % 2 ^ rest) (c / p)
          (one-le-pow (8 - off) 2 (omega arith))
      ∙ ap (λ x. x + c / p) (div-eq_of_lt low)
      ∙ zero-add (c / p)

  pub single_last : single % 2 ^ (8 - (off + bits)) ≡ c % 2 ^ (8 - (off + bits))
  single_last =
      ap (λ x. x % 2 ^ rest) (let e : single ≡ c % 2 ^ rest + ahead * 2 ^ rest = omega arith in e)
      ∙ add-mul-mod_self_right (c % 2 ^ rest) ahead (2 ^ rest)
      ∙ mod-eq_of_lt (mod-lt c (one-le-pow rest 2 (omega arith)))
