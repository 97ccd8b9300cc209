-- ===== src/Ios/Write/Bytes.antt =====
-- The bytes that the cases of `ios_write_int_common` (libpoke/ios.c) write, as arithmetic.
mod Parts
pub use Parts.{eight_split, mul-mod-mul_right, Buffer}
use native.Mathlib.Nat.{
  add-mul-mod_self_right, mul-lt-mul_of_pos_right, mul-le-mul_right, mod-lt, one-le-pow,
  mod-eq_of_lt, div-lt_iff_lt-mul,
}
use poke.Base.{
  ℕ, zero, suc, ◌+◌, ◌-◌, ◌*◌, ◌/◌, ◌%◌, ◌^◌, ◌≤◌, ◌<◌, ◌≡◌, refl, ◌∙◌, sym, ap, ap₂, arith,
  pow-add, bit_or, bit_or_comm, bit_or_fields, bit_and_low, List, length, get_or, some,
}
use poke.Ios.Word.{shl64, shr, get_lsb, get_msb, get_lsb-eq, get_msb-eq, ◌|||◌, ◌&&&◌}
use poke.Ios.Write.Cases.{
  write_switch, write_case_1, write_case_2, write_case_3, write_case_4, write_case_5, write_case_6,
  write_case_7, write_case_8,
}
use Parts.{first_lem, last_lem}

module _ (c0 cn off lb v : ℕ) (byte : c0 < 256) (in_byte : off < 8) (narrow : lb ≤ 8) where
  shr_byte : (s t : ℕ) → s ≡ t → (shr v s &&& 0xff) ≡ v / 2 ^ t % 256
  shr_byte s t e = bit_and_low 8 (shr v s) ∙ ap (λ x. v / 2 ^ x % 256) e

  case_1-Buffer :
      v < 2 ^ (8 - off + (8 * 0 + lb))
      → Buffer c0 cn off lb 0 v (write_case_1 lb v (get_msb c0 off) (get_lsb cn (8 - lb)))
  unfolding write_case_1
  case_1-Buffer h = record {
    len = refl;
    first =
        ap (λ x. (get_msb c0 off ||| shr v x) % 256) (omega arith)
        ∙ first_lem c0 off v (8 * 0 + lb) byte in_byte h;
    mid = mid;
    last = last_lem cn lb v narrow;
  }
    where
      mid :
          (i : ℕ)
          → i < 0
          → get_or (write_case_1 lb v (get_msb c0 off) (get_lsb cn (8 - lb))) (suc i) 0
            ≡ v / 2 ^ (8 * (0 - suc i) + lb) % 256
      mid i h = absurd (omega arith)

  case_2-Buffer :
      v < 2 ^ (8 - off + (8 * 1 + lb))
      → Buffer c0 cn off lb 1 v (write_case_2 lb v (get_msb c0 off) (get_lsb cn (8 - lb)))
  unfolding write_case_2
  case_2-Buffer h = record {
    len = refl;
    first =
        ap (λ x. (get_msb c0 off ||| shr v x) % 256) (omega arith)
        ∙ first_lem c0 off v (8 * 1 + lb) byte in_byte h;
    mid = mid;
    last = last_lem cn lb v narrow;
  }
    where
      mid :
          (i : ℕ)
          → i < 1
          → get_or (write_case_2 lb v (get_msb c0 off) (get_lsb cn (8 - lb))) (suc i) 0
            ≡ v / 2 ^ (8 * (1 - suc i) + lb) % 256
      mid zero h = shr_byte _ _ (omega arith)
      mid (suc i) h = absurd (omega arith)

  case_3-Buffer :
      v < 2 ^ (8 - off + (8 * 2 + lb))
      → Buffer c0 cn off lb 2 v (write_case_3 lb v (get_msb c0 off) (get_lsb cn (8 - lb)))
  unfolding write_case_3
  case_3-Buffer h = record {
    len = refl;
    first =
        ap (λ x. (get_msb c0 off ||| shr v x) % 256) (omega arith)
        ∙ first_lem c0 off v (8 * 2 + lb) byte in_byte h;
    mid = mid;
    last = last_lem cn lb v narrow;
  }
    where
      mid :
          (i : ℕ)
          → i < 2
          → get_or (write_case_3 lb v (get_msb c0 off) (get_lsb cn (8 - lb))) (suc i) 0
            ≡ v / 2 ^ (8 * (2 - suc i) + lb) % 256
      mid zero h = shr_byte _ _ (omega arith)
      mid (suc zero) h = shr_byte _ _ (omega arith)
      mid (suc (suc i)) h = absurd (omega arith)

  case_4-Buffer :
      v < 2 ^ (8 - off + (8 * 3 + lb))
      → Buffer c0 cn off lb 3 v (write_case_4 lb v (get_msb c0 off) (get_lsb cn (8 - lb)))
  unfolding write_case_4
  case_4-Buffer h = record {
    len = refl;
    first =
        ap (λ x. (get_msb c0 off ||| shr v x) % 256) (omega arith)
        ∙ first_lem c0 off v (8 * 3 + lb) byte in_byte h;
    mid = mid;
    last = last_lem cn lb v narrow;
  }
    where
      mid :
          (i : ℕ)
          → i < 3
          → get_or (write_case_4 lb v (get_msb c0 off) (get_lsb cn (8 - lb))) (suc i) 0
            ≡ v / 2 ^ (8 * (3 - suc i) + lb) % 256
      mid zero h = shr_byte _ _ (omega arith)
      mid (suc zero) h = shr_byte _ _ (omega arith)
      mid (suc (suc zero)) h = shr_byte _ _ (omega arith)
      mid (suc (suc (suc i))) h = absurd (omega arith)

  case_5-Buffer :
      v < 2 ^ (8 - off + (8 * 4 + lb))
      → Buffer c0 cn off lb 4 v (write_case_5 lb v (get_msb c0 off) (get_lsb cn (8 - lb)))
  unfolding write_case_5
  case_5-Buffer h = record {
    len = refl;
    first =
        ap (λ x. (get_msb c0 off ||| shr v x) % 256) (omega arith)
        ∙ first_lem c0 off v (8 * 4 + lb) byte in_byte h;
    mid = mid;
    last = last_lem cn lb v narrow;
  }
    where
      mid :
          (i : ℕ)
          → i < 4
          → get_or (write_case_5 lb v (get_msb c0 off) (get_lsb cn (8 - lb))) (suc i) 0
            ≡ v / 2 ^ (8 * (4 - suc i) + lb) % 256
      mid zero h = shr_byte _ _ (omega arith)
      mid (suc zero) h = shr_byte _ _ (omega arith)
      mid (suc (suc zero)) h = shr_byte _ _ (omega arith)
      mid (suc (suc (suc zero))) h = shr_byte _ _ (omega arith)
      mid (suc (suc (suc (suc i)))) h = absurd (omega arith)

  case_6-Buffer :
      v < 2 ^ (8 - off + (8 * 5 + lb))
      → Buffer c0 cn off lb 5 v (write_case_6 lb v (get_msb c0 off) (get_lsb cn (8 - lb)))
  unfolding write_case_6
  case_6-Buffer h = record {
    len = refl;
    first =
        ap (λ x. (get_msb c0 off ||| shr v x) % 256) (omega arith)
        ∙ first_lem c0 off v (8 * 5 + lb) byte in_byte h;
    mid = mid;
    last = last_lem cn lb v narrow;
  }
    where
      mid :
          (i : ℕ)
          → i < 5
          → get_or (write_case_6 lb v (get_msb c0 off) (get_lsb cn (8 - lb))) (suc i) 0
            ≡ v / 2 ^ (8 * (5 - suc i) + lb) % 256
      mid zero h = shr_byte _ _ (omega arith)
      mid (suc zero) h = shr_byte _ _ (omega arith)
      mid (suc (suc zero)) h = shr_byte _ _ (omega arith)
      mid (suc (suc (suc zero))) h = shr_byte _ _ (omega arith)
      mid (suc (suc (suc (suc zero)))) h = shr_byte _ _ (omega arith)
      mid (suc (suc (suc (suc (suc i))))) h = absurd (omega arith)

  case_7-Buffer :
      v < 2 ^ (8 - off + (8 * 6 + lb))
      → Buffer c0 cn off lb 6 v (write_case_7 lb v (get_msb c0 off) (get_lsb cn (8 - lb)))
  unfolding write_case_7
  case_7-Buffer h = record {
    len = refl;
    first =
        ap (λ x. (get_msb c0 off ||| shr v x) % 256) (omega arith)
        ∙ first_lem c0 off v (8 * 6 + lb) byte in_byte h;
    mid = mid;
    last = last_lem cn lb v narrow;
  }
    where
      mid :
          (i : ℕ)
          → i < 6
          → get_or (write_case_7 lb v (get_msb c0 off) (get_lsb cn (8 - lb))) (suc i) 0
            ≡ v / 2 ^ (8 * (6 - suc i) + lb) % 256
      mid zero h = shr_byte _ _ (omega arith)
      mid (suc zero) h = shr_byte _ _ (omega arith)
      mid (suc (suc zero)) h = shr_byte _ _ (omega arith)
      mid (suc (suc (suc zero))) h = shr_byte _ _ (omega arith)
      mid (suc (suc (suc (suc zero)))) h = shr_byte _ _ (omega arith)
      mid (suc (suc (suc (suc (suc zero))))) h = shr_byte _ _ (omega arith)
      mid (suc (suc (suc (suc (suc (suc i)))))) h = absurd (omega arith)

  case_8-Buffer :
      v < 2 ^ (8 - off + (8 * 7 + lb))
      → Buffer c0 cn off lb 7 v (write_case_8 lb v (get_msb c0 off) (get_lsb cn (8 - lb)))
  unfolding write_case_8
  case_8-Buffer h = record {
    len = refl;
    first =
        ap (λ x. (get_msb c0 off ||| shr v x) % 256) (omega arith)
        ∙ first_lem c0 off v (8 * 7 + lb) byte in_byte h;
    mid = mid;
    last = last_lem cn lb v narrow;
  }
    where
      mid :
          (i : ℕ)
          → i < 7
          → get_or (write_case_8 lb v (get_msb c0 off) (get_lsb cn (8 - lb))) (suc i) 0
            ≡ v / 2 ^ (8 * (7 - suc i) + lb) % 256
      mid zero h = shr_byte _ _ (omega arith)
      mid (suc zero) h = shr_byte _ _ (omega arith)
      mid (suc (suc zero)) h = shr_byte _ _ (omega arith)
      mid (suc (suc (suc zero))) h = shr_byte _ _ (omega arith)
      mid (suc (suc (suc (suc zero)))) h = shr_byte _ _ (omega arith)
      mid (suc (suc (suc (suc (suc zero))))) h = shr_byte _ _ (omega arith)
      mid (suc (suc (suc (suc (suc (suc zero)))))) h = shr_byte _ _ (omega arith)
      mid (suc (suc (suc (suc (suc (suc (suc i))))))) h = absurd (omega arith)

  -- Each case from 1 to 8 writes those bytes.
  pub write_switch-Buffer :
      (j : ℕ)
      → j < 8
      → v < 2 ^ (8 - off + (8 * j + lb))
      → (buf : List ℕ) × (write_switch (suc j) lb v (get_msb c0 off) (get_lsb cn (8 - lb))
          ≡ some buf)
        × Buffer c0 cn off lb j v buf
  unfolding write_switch
  write_switch-Buffer zero h fits = (_, refl, case_1-Buffer fits)
  write_switch-Buffer (suc zero) h fits = (_, refl, case_2-Buffer fits)
  write_switch-Buffer (suc (suc zero)) h fits = (_, refl, case_3-Buffer fits)
  write_switch-Buffer (suc (suc (suc zero))) h fits = (_, refl, case_4-Buffer fits)
  write_switch-Buffer (suc (suc (suc (suc zero)))) h fits = (_, refl, case_5-Buffer fits)
  write_switch-Buffer (suc (suc (suc (suc (suc zero))))) h fits = (_, refl, case_6-Buffer fits)
  write_switch-Buffer (suc (suc (suc (suc (suc (suc zero)))))) h fits =
      (_, refl, case_7-Buffer fits)
  write_switch-Buffer (suc (suc (suc (suc (suc (suc (suc zero))))))) h fits =
      (_, refl, case_8-Buffer fits)
  write_switch-Buffer (suc (suc (suc (suc (suc (suc (suc (suc j)))))))) h fits =
      absurd (omega arith)
