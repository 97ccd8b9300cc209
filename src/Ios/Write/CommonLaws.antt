-- ===== src/Ios/Write/CommonLaws.antt =====
-- `ios_write_int_common` (libpoke/ios.c) stores the integer.
use native.Mathlib.Nat.{add-zero}
use native.Mathlib.Decide.{dec_lt, ℕ_discrete}
use poke.Base.{
  ℕ, zero, suc, ◌+◌, ◌-◌, ◌*◌, ◌/◌, ◌%◌, ◌^◌, ◌≤◌, ◌<◌, ◌≡◌, ◌≢◌, ◌⊎◌, inl, inr, refl, ◌∙◌, sym, ap,
  ap₂, arith, true, false, List, [], ◌∷◌, length, some, ltb,
}
use poke.Iod.{DevIf, overlay, has_flag, ios_f_read}
use poke.Ios.Word.{Endian, lsb, msb, get_lsb, get_msb}
use poke.Ios.Space.{at}
use poke.Ios.Field.{IsBytes, field, field-byte, int_at}
use poke.Ios.Read.Common.{lastbyte_bits_of}
use poke.Ios.Read.CommonLaws.{bytes_spanned}
use poke.Ios.Write.Message.{int_at-message}
use poke.Ios.Write.Cases.{ordered, write_case_0, write_switch}
use poke.Ios.Write.Bytes.{write_switch-Buffer}
use poke.Ios.Write.Stored.{Stores, keeps_lem, overlay_in, overlay_out}
use poke.Ios.Write.Span.{span-field, span-IsBytes, span_keeps}
use poke.Ios.Write.Ordered.{ordered-message, ordered-lt}
use poke.Ios.Write.Single.{single-lt, single_lem, single-field, single_first, single_last}
use poke.Ios.Write.Common.{
  WriteResult, get_c, put_c, put_bytes, put_case, put_case_0, put_first, write_case, write_cases,
  write_int_common,
}

-- `r` comes from writing, at byte `byte` of a device that holds `mem`, a buffer that covers the bytes
-- of the integer and stores it.
pub record Puts {D : Type 0} (dev_if : DevIf D) (dev : D) (mem : ℕ → ℕ) (endian : Endian)
    (off byte bits v : ℕ) (r : WriteResult × D) : Type 0 where
  pub buf : List ℕ
  pub does : r ≡ put_c dev_if dev buf byte
  pub len : length buf ≡ bytes_spanned off bits
  pub bytes : IsBytes (overlay mem byte buf)
  pub stores : Stores mem (overlay mem byte buf) endian (8 * byte + off) bits v

-- A field that holds the value in order is the integer.
int_at-ordered :
    (mem : ℕ → ℕ) (endian : Endian) (pos bits v k : ℕ)
    → 0 < bits
    → v < 2 ^ bits
    → k ≤ 8
    → 8 * k < bits + 8
    → bits < 8 * k + 8
    → bits ≤ 64
    → field mem pos bits ≡ ordered k endian bits v
    → int_at mem endian pos bits ≡ v
unfolding int_at ordered
int_at-ordered mem msb pos bits v k positive fits a b c d e = e
int_at-ordered mem lsb pos bits v k positive fits a b c d e =
    int_at-message mem bits pos v positive fits (e ∙ ordered-message bits v fits k a b c d)

module _ {D : Type 0} (dev_if : DevIf D) (dev : D) (mem : ℕ → ℕ) (is_bytes : IsBytes mem)
    (endian : Endian) (off byte bits v : ℕ) (in_byte : off < 8) (some_bits : 0 < bits)
    (width : bits ≤ 64) (fits : v < 2 ^ bits) (addresses : byte + bytes_spanned off bits < 2 ^ 64)
    (gets : (i : ℕ)
      → i < bytes_spanned off bits
      → get_c dev_if dev (byte + i) ≡ (inr (mem (byte + i)), dev)) where
  address : (i : ℕ) → i < bytes_spanned off bits → (byte + i) % 2 ^ 64 ≡ byte + i
  address i h = omega arith

  first_address : (byte + 0) % 2 ^ 64 ≡ byte
  first_address = omega arith

  gets_first : get_c dev_if dev byte ≡ (inr (mem byte), dev)
  gets_first =
      ap (get_c dev_if dev) (sym (add-zero byte))
      ∙ gets 0 (omega arith)
      ∙ ap (λ i. (inr (mem i), dev)) (add-zero byte)

  -- The byte of `case 0`.
  abbrev byte_0 : ℕ
  byte_0 =
      (mem byte / 2 ^ (8 - off) * 2 ^ bits + v) * 2 ^ (8 - (off + bits))
      + mem byte % 2 ^ (8 - (off + bits))

  abbrev buf_0 : List ℕ
  buf_0 = byte_0 ∷ []

  module _ (one : off + bits ≤ 8) where
    written_0 : overlay mem byte buf_0 byte ≡ byte_0
    written_0 =
        ap (overlay mem byte buf_0) (sym (add-zero byte))
        ∙ overlay_in mem byte buf_0 0 (omega arith)

    outside_0 : (i : ℕ) → (i < byte) ⊎ (byte + 0 < i) → overlay mem byte buf_0 i ≡ mem i
    outside_0 i (inl h) = overlay_out mem byte buf_0 i (inl h)
    outside_0 i (inr h) = overlay_out mem byte buf_0 i (inr (omega arith))

    case_0-IsBytes : IsBytes (overlay mem byte buf_0)
    case_0-IsBytes i = elim (ℕ_discrete i byte) [
      | yes e ↦
          rw (e, written_0) (single-lt (mem byte) off bits v (is_bytes byte) some_bits one fits)
      | no ne ↦ elim (dec_lt i byte) [
        | yes q ↦ rw (outside_0 i (inl q)) (is_bytes i)
        | no q ↦ rw (outside_0 i (inr (omega arith))) (is_bytes i)
      ]
    ]

    field_0 : field (overlay mem byte buf_0) (8 * byte + off) bits ≡ v
    field_0 =
        field-byte (overlay mem byte buf_0) byte off bits one
        ∙ ap (λ x. x / 2 ^ (8 - off - bits) % 2 ^ bits) written_0
        ∙ single-field (mem byte) off bits v (is_bytes byte) some_bits one fits

    ordered_0 : (e : Endian) → v ≡ ordered 0 e bits v
    unfolding ordered
    ordered_0 msb = refl
    ordered_0 lsb = refl

    one_byte :
        bits < 8
        → Puts dev_if dev mem endian off byte bits v
            (write_cases dev_if (at off byte) 0 (some (off + bits)) endian bits v dev)
    unfolding write_cases put_case_0 write_case_0 ordered
    one_byte short = record {
      buf = buf_0;
      does =
          rw (first_address, gets_first)
            (ap₂ (λ x i. put_c dev_if dev (x ∷ []) i)
              (single_lem (mem byte) off bits v (is_bytes byte) some_bits one fits) first_address);
      len = let e : 1 ≡ bytes_spanned off bits = omega arith in e;
      bytes = case_0-IsBytes;
      stores = record {
        holds =
            int_at-ordered (overlay mem byte buf_0) endian (8 * byte + off) bits v 0 some_bits fits
              (omega arith) (omega arith) short width (field_0 ∙ ordered_0 endian);
        keeps = λ p h.
            keeps_lem mem (overlay mem byte buf_0) byte off 0 (off + bits) in_byte one outside_0
              (ap (λ x. x / 2 ^ (8 - off)) written_0
                ∙ single_first (mem byte) off bits v (is_bytes byte) some_bits one fits)
              (ap (λ i. overlay mem byte buf_0 i % 2 ^ (8 - (off + bits))) (add-zero byte)
                ∙ ap (λ x. x % 2 ^ (8 - (off + bits))) written_0
                ∙ single_last (mem byte) off bits v (is_bytes byte) some_bits one fits
                ∙ ap (λ i. mem i % 2 ^ (8 - (off + bits))) (sym (add-zero byte)))
              p (elim h [ inl q ↦ inl q | inr q ↦ inr (omega arith) ]);
      };
    }

  several_puts :
      (j lb put : ℕ) (buf : List ℕ)
      → suc j < bytes_spanned off bits
      → write_switch (suc j) lb put (get_msb (mem byte) off) (get_lsb (mem (byte + suc j)) (8 - lb))
        ≡ some buf
      → write_case dev_if (at off byte) (suc j) (some lb) put dev ≡ put_c dev_if dev buf byte
  unfolding write_case put_first put_case put_bytes
  several_puts j lb put buf inside case =
      rw (first_address, gets_first)
        (rw (address (suc j) inside, gets (suc j) inside)
          (rw case (ap (put_c dev_if dev buf) first_address)))

  several :
      (j lb : ℕ)
      → j < 8
      → off + bits ≡ 8 * suc j + lb
      → 0 < lb
      → lb ≤ 8
      → bits < 8 * suc j + 8
      → Puts dev_if dev mem endian off byte bits v
          (write_cases dev_if (at off byte) (suc j) (some lb) endian bits v dev)
  unfolding write_cases
  several j lb few total pos narrow short =
      let put = ordered (suc j) endian bits v in
      let split : bits ≡ 8 - off + (8 * j + lb) = omega arith in
      let ordered_fits : put < 2 ^ (8 - off + (8 * j + lb)) = omega (
        arith,
        ordered-lt bits v fits endian (suc j) (omega arith) (omega arith) short width,
        ap (λ (x : ℕ). 2 ^ x) split,
      ) in
      let (buf, case, b) =
        write_switch-Buffer (mem byte) (mem (byte + suc j)) off lb put (is_bytes byte) in_byte
          narrow j few ordered_fits in
      record {
        buf = buf;
        does =
            rw (let e : ltb 7 j ≡ false = ground arith in e)
              (several_puts j lb put buf (omega arith) case);
        len = omega (arith, b.len);
        bytes = span-IsBytes mem is_bytes byte off lb j put buf in_byte narrow ordered_fits b;
        stores = record {
          holds =
              int_at-ordered (overlay mem byte buf) endian (8 * byte + off) bits v (suc j) some_bits
                fits (omega arith) (omega arith) short width
                (ap (field (overlay mem byte buf) (8 * byte + off))
                    (let e : bits ≡ 8 - off + 8 * j + lb = omega arith in e)
                  ∙ span-field mem is_bytes byte off lb j put buf in_byte narrow ordered_fits b);
          keeps = λ p h.
              span_keeps mem is_bytes byte off lb j put buf in_byte narrow ordered_fits b p
                (elim h [ inl q ↦ inl q | inr q ↦ inr (omega arith) ]);
        };
      }

  -- On a readable device that holds `mem`, a value of `bits` bits is written as a buffer that stores
  -- it, unless it is a whole number of bytes at a byte boundary.
  pub write_int_common-Puts :
      (off ≡ 0 → bits % 8 ≢ 0)
      → has_flag (dev_if.get_flags dev) ios_f_read ≡ true
      → Puts dev_if dev mem endian off byte bits v
          (write_int_common dev_if dev (at off byte) bits endian v)
  unfolding write_int_common
  write_int_common-Puts odd readable = rw readable (by_count ((bits + 7 - (8 - off)) / 8) refl)
    where
      by_count :
          (k : ℕ)
          → (bits + 7 - (8 - off)) / 8 ≡ k
          → Puts dev_if dev mem endian off byte bits v (
              write_cases dev_if
                (at off byte)
                ((bits + 7 - (8 - off)) / 8)
                (some (lastbyte_bits_of off bits))
                endian
                bits
                v
                dev)
      by_count zero e =
          rw (e, let f : lastbyte_bits_of off bits ≡ off + bits = ground arith in f)
            (one_byte (omega arith)
              (elim (ℕ_discrete off 0) [ yes z ↦ omega (arith, odd z) | no nz ↦ omega arith ]))
      by_count (suc j) e = rw e (
          several j (lastbyte_bits_of off bits) (omega arith) (ground arith) (ground arith)
            (ground arith)
            (elim (ℕ_discrete off 0) [ yes z ↦ omega (arith, odd z) | no nz ↦ omega arith ]))
