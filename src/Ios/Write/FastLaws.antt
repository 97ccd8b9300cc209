-- ===== src/Ios/Write/FastLaws.antt =====
-- `ios_write_int_fast` (libpoke/ios.c) stores the integer.
use native.Mathlib.Nat.{
  div-div-eq-div-mul, add-zero, one-le-pow, mod-lt, mod-eq_of_lt, add-mul-mod_self_right,
}
use native.Mathlib.Decide.{dec_lt}
use poke.Base.{
  ℕ, zero, suc, ◌+◌, ◌-◌, ◌*◌, ◌/◌, ◌%◌, ◌^◌, ◌≤◌, ◌<◌, ◌≡◌, inl, inr, ◌∙◌, sym, ap, ap₂, arith,
  pow-add, subst, List,
}
use poke.Iod.{DevIf, overlay}
use poke.Ios.Word.{Endian, lsb, msb}
use poke.Ios.Field.{IsBytes, field, field_lsb, field-split, field_whole, int_at, int_at-lsb}
use poke.Ios.Write.Message.{field_lsb-last}
use poke.Ios.Write.Fast.{byte}
use poke.Ios.Write.FastBytes.{Bytes, rank, write_bytes_fast-Bytes}
use poke.Ios.Write.Stored.{Stores, overlay_in, overlay_out}
use poke.Ios.Write.Common.{put_bytes, write_int_fast}
use poke.Ios.Write.CommonLaws.{Puts}

-- A byte and the bytes above it.
mod_byte : (v m : ℕ) → v % 2 ^ (8 * suc m) ≡ v / 256 % 2 ^ (8 * m) * 256 + v % 256
mod_byte v m =
    let p = 2 ^ (8 * m) in
    let pos : 0 < p = one-le-pow (8 * m) 2 (omega arith) in
    let more : 2 ^ (8 * suc m) ≡ p * 256 =
      ap (λ (x : ℕ). 2 ^ x) (let e : 8 * suc m ≡ 8 * m + 8 = omega arith in e)
      ∙ pow-add (8 * m) 8 in
    ap (λ x. v % x) more
    ∙ ap (λ x. x % (p * 256))
        (let e : v ≡ v / 256 % p * 256 + v % 256 + v / 256 / p * (p * 256) = omega (
          arith,
          ap (λ (x : ℕ). x * 256)
              (let f : v / 256 ≡ v / 256 / p * p + v / 256 % p = omega arith in f),
        ) in
          e)
    ∙ add-mul-mod_self_right (v / 256 % p * 256 + v % 256) (v / 256 / p) (p * 256)
    ∙ mod-eq_of_lt (omega (arith, mod-lt (v / 256) pos))

div_byte : (v k : ℕ) → v / 2 ^ (8 + k) ≡ v / 256 / 2 ^ k
div_byte v k = ap (λ x. v / x) (pow-add 8 k) ∙ sym (div-div-eq-div-mul v 256 (2 ^ k))

module _ (mem : ℕ → ℕ) (bytes : IsBytes mem) where
  msb_field :
      (m a v : ℕ)
      → ((i : ℕ) → i < m → mem (a + i) ≡ byte v (8 * (m - suc i)))
      → field mem (8 * a) (8 * m) ≡ v % 2 ^ (8 * m)
  unfolding field
  msb_field zero a v held = omega arith
  msb_field (suc m) a v held =
      ap (field mem (8 * a)) (let e : 8 * suc m ≡ 8 * m + 8 = omega arith in e)
      ∙ field-split mem (8 * a) (8 * m) 8
      ∙ ap₂ (λ x y. x * 256 + y)
          (msb_field m a (v / 256) (λ i h.
            held i (omega arith)
            ∙ ap (λ x. v / 2 ^ x % 256)
                (let e : 8 * (suc m - suc i) ≡ 8 + 8 * (m - suc i) = omega arith in e)
            ∙ ap (λ x. x % 256) (div_byte v (8 * (m - suc i)))))
          (ap (λ p. field mem p 8) (let e : 8 * a + 8 * m ≡ 8 * (a + m) = omega arith in e)
            ∙ field_whole mem bytes (a + m)
            ∙ held m (omega arith)
            ∙ ap (λ x. v / 2 ^ x % 256) (let e : 8 * (suc m - suc m) ≡ 0 = omega arith in e)
            ∙ omega arith)
      ∙ sym (mod_byte v m)

  lsb_field :
      (m a v : ℕ)
      → ((i : ℕ) → i < m → mem (a + i) ≡ byte v (8 * i))
      → field_lsb mem (8 * a) m 0 ≡ v % 2 ^ (8 * m)
  unfolding field field_lsb
  lsb_field zero a v held = omega arith
  lsb_field (suc m) a v held =
      ap₂ (λ x y. x + 256 * y)
        (field_whole mem bytes a
          ∙ ap mem (sym (add-zero a))
          ∙ held 0 (omega arith)
          ∙ (let e : byte v (8 * 0) ≡ v % 256 = omega arith in e))
        (ap (λ p. field_lsb mem p m 0) (let e : 8 * a + 8 ≡ 8 * suc a = omega arith in e)
          ∙ lsb_field m (suc a) (v / 256) (λ i h.
            ap mem (let e : suc a + i ≡ a + suc i = omega arith in e)
            ∙ held (suc i) (omega arith)
            ∙ ap (λ x. v / 2 ^ x % 256) (let e : 8 * suc i ≡ 8 + 8 * i = omega arith in e)
            ∙ ap (λ x. x % 256) (div_byte v (8 * i))))
      ∙ omega (arith, mod_byte v m)

  bytes-int_at :
      (endian : Endian) (m a v : ℕ)
      → 0 < m
      → ((i : ℕ) → i < m → mem (a + i) ≡ byte v (8 * rank endian m i))
      → int_at mem endian (8 * a) (8 * m) ≡ v % 2 ^ (8 * m)
  unfolding int_at
  bytes-int_at msb m a v positive held = msb_field m a v held
  bytes-int_at lsb m a v positive held =
      let q = m - 1 in
      sym (int_at-lsb mem (8 * a) (8 * m) q 8 (omega arith) (omega arith) (omega arith))
      ∙ sym (field_lsb-last mem q (8 * a))
      ∙ ap (λ n. field_lsb mem (8 * a) n 0) (let e : suc q ≡ m = omega arith in e)
      ∙ lsb_field m a v held

module _ {D : Type 0} (dev_if : DevIf D) (dev : D) (mem : ℕ → ℕ) (is_bytes : IsBytes mem)
    (endian : Endian) (a m v : ℕ) (buf : List ℕ) (some_bytes : 0 < m)
    (b : Bytes endian m v buf) where
  inside : (i : ℕ) → i < m → overlay mem a buf (a + i) ≡ byte v (8 * rank endian m i)
  inside i h = overlay_in mem a buf i (omega (arith, b.len)) ∙ b.at i h

  pub fast-IsBytes : IsBytes (overlay mem a buf)
  fast-IsBytes i = elim (dec_lt i a) [
    | yes q ↦ rw (overlay_out mem a buf i (inl q)) (is_bytes i)
    | no q ↦ elim (dec_lt i (a + m)) [
      | yes r ↦
          let k = i - a in
          rw (let e : i ≡ a + k = omega arith in e, inside k (omega arith)) (omega arith)
      | no r ↦ rw (overlay_out mem a buf i (inr (omega (arith, b.len)))) (is_bytes i)
    ]
  ]

  pub fast-Stores : Stores mem (overlay mem a buf) endian (8 * a) (8 * m) (v % 2 ^ (8 * m))
  fast-Stores = record {
    holds = bytes-int_at (overlay mem a buf) fast-IsBytes endian m a v some_bytes inside;
    keeps = λ p h.
        ap (λ x. x / 2 ^ (7 - p % 8) % 2)
          (overlay_out mem a buf (p / 8)
            (elim h [ inl q ↦ inl (omega arith) | inr q ↦ inr (omega (arith, b.len)) ]));
  }

-- The low bytes of any value are written as a buffer that stores them.
pub write_int_fast-Puts :
    {D : Type 0} (dev_if : DevIf D) (dev : D) (mem : ℕ → ℕ) (is_bytes : IsBytes mem)
    (endian : Endian) (a m v : ℕ)
    → 0 < m
    → m ≤ 8
    → Puts dev_if dev mem endian 0 a
        (8 * m)
        (v % 2 ^ (8 * m))
        (write_int_fast dev_if dev a (8 * m) endian v)
unfolding write_int_fast put_bytes
write_int_fast-Puts dev_if dev mem is_bytes endian a m v h k =
    let (buf, case, b) = write_bytes_fast-Bytes m endian v h k in
    record {
      buf = buf;
      does = rw case;
      len = omega (arith, b.len);
      bytes = fast-IsBytes dev_if dev mem is_bytes endian a m v buf h b;
      stores =
          subst (λ pos. Stores mem (overlay mem a buf) endian pos (8 * m) (v % 2 ^ (8 * m)))
            (let e : 8 * a ≡ 8 * a + 0 = omega arith in e)
            (fast-Stores dev_if dev mem is_bytes endian a m v buf h b);
    }
