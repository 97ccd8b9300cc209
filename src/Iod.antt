-- ===== src/Iod.antt =====
-- The device interface of libpoke/ios-dev.h, and the status codes of it and of libpoke/ios.h.
pub mod Mem
pub mod Sub
pub mod Zero
use poke.Base.{
  ℕ, zero, suc, ◌+◌, ◌<◌, ◌≡◌, refl, sym, ◌∙◌, ap, ap₂, arith, Bool, List, [], ◌∷◌, bit_and, ◌==◌,
}
use native.Mathlib.Decide.{dec_lt}
use poke.Base.{true, false, inl, inr, splice, get_or-splice_in, get_or-splice_out, lt→ltb}
use poke.Base.{get_or, length, take, drop, leb, ltb, ◌&&◌, ◌≤◌, ◌-◌, if◌then◌else◌}
use mathlib.Core.Bool.{not}
use native.Mathlib.Nat.{add-zero}

-- A code stands for the `int` of which it is the magnitude: each code is 0 or a negative number.
abbrev pub iod_ok : ℕ
iod_ok = 0

abbrev pub iod_error : ℕ
iod_error = 1

abbrev pub iod_eflags : ℕ
iod_eflags = 3

abbrev pub iod_enomem : ℕ
iod_enomem = 4

abbrev pub iod_eof : ℕ
iod_eof = 5

abbrev pub iod_emmap : ℕ
iod_emmap = 7

abbrev pub iod_enoent : ℕ
iod_enoent = 8

abbrev pub ios_ok : ℕ
ios_ok = 0

abbrev pub ios_error : ℕ
ios_error = 1

abbrev pub ios_enomem : ℕ
ios_enomem = 4

abbrev pub ios_eof : ℕ
ios_eof = 5

abbrev pub ios_eopen : ℕ
ios_eopen = 7

abbrev pub ios_eperm : ℕ
ios_eperm = 8

-- IOD_ERROR_TO_IOS_ERROR
abbrev pub iod_error_to_ios_error : ℕ → ℕ
iod_error_to_ios_error error_no = error_no

abbrev pub ios_f_read : ℕ
ios_f_read = 1

abbrev pub ios_f_write : ℕ
ios_f_write = 2

abbrev pub ios_f_volatile : ℕ
ios_f_volatile = 256

-- `flags & flag`, as a condition.
abbrev pub has_flag : ℕ → ℕ → Bool
has_flag flags flag = not (bit_and flags flag == 0)

-- The operations of `struct ios_dev_if` on an open device of state `D`. `pread` is given the count
-- and the offset, and returns its status with the bytes that it put into the buffer.
pub record DevIf (D : Type 0) : Type 0 where
  pub pread : D → ℕ → ℕ → ℕ × List ℕ × D
  pub pwrite : D → List ℕ → ℕ → ℕ × D
  pub get_flags : D → ℕ
  pub size : D → ℕ

-- The `count` bytes of a memory from byte `offset` on.
unfoldable pub bytes_at : (ℕ → ℕ) → ℕ → ℕ → List ℕ
bytes_at mem offset zero = []
bytes_at mem offset (suc count) = mem offset ∷ bytes_at mem (suc offset) count

pub length-bytes_at : (mem : ℕ → ℕ) (offset count : ℕ) → length (bytes_at mem offset count) ≡ count
unfolding bytes_at
length-bytes_at mem offset zero = refl
length-bytes_at mem offset (suc count) = ap suc (length-bytes_at mem (suc offset) count)

pub get_or-bytes_at :
    (mem : ℕ → ℕ) (offset count i : ℕ)
    → i < count
    → get_or (bytes_at mem offset count) i 0 ≡ mem (offset + i)
unfolding bytes_at
get_or-bytes_at mem offset zero i h = absurd (omega arith)
get_or-bytes_at mem offset (suc count) zero h = ap mem (omega arith)
get_or-bytes_at mem offset (suc count) (suc i) h =
    get_or-bytes_at mem (suc offset) count i (omega arith) ∙ ap mem (omega arith)

-- A memory with the bytes of `buf` written over it from byte `offset` on.
abbrev pub overlay : (ℕ → ℕ) → ℕ → List ℕ → ℕ → ℕ
overlay mem offset buf i =
    if leb offset i && ltb i (offset + length buf) then get_or buf (i - offset) 0 else mem i

bytes_at-suc :
    (mem : ℕ → ℕ) (offset count : ℕ)
    → bytes_at (λ i. mem (suc i)) offset count ≡ bytes_at mem (suc offset) count
unfolding bytes_at
bytes_at-suc mem offset zero = refl
bytes_at-suc mem offset (suc count) =
    ap (λ t. mem (suc offset) ∷ t) (bytes_at-suc mem (suc offset) count)

-- Memories that agree on a range, at whatever places, give the same bytes.
pub bytes_at-congr :
    (mem mem' : ℕ → ℕ) (offset offset' count : ℕ)
    → ((i : ℕ) → i < count → mem (offset + i) ≡ mem' (offset' + i))
    → bytes_at mem offset count ≡ bytes_at mem' offset' count
unfolding bytes_at
bytes_at-congr mem mem' offset offset' zero same = refl
bytes_at-congr mem mem' offset offset' (suc count) same =
    ap₂ ◌∷◌ (ap mem (sym (add-zero offset)) ∙ same 0 (omega arith) ∙ ap mem' (add-zero offset')) (
      bytes_at-congr mem mem' (suc offset) (suc offset') count (λ i h.
        ap mem (let e : suc offset + i ≡ offset + suc i = omega arith in e)
        ∙ same (suc i) (omega arith)
        ∙ ap mem' (let e : offset' + suc i ≡ suc offset' + i = omega arith in e)))

pub take-drop_bytes :
    (xs : List ℕ) (offset count : ℕ)
    → offset + count ≤ length xs
    → take count (drop offset xs) ≡ bytes_at (λ i. get_or xs i 0) offset count
unfolding bytes_at
take-drop_bytes xs offset zero h = refl
take-drop_bytes [] offset (suc count) h = absurd (omega arith)
take-drop_bytes (x ∷ xs) zero (suc count) h =
    ap (λ t. x ∷ t) (take-drop_bytes (x ∷ xs) 1 count (omega arith))
take-drop_bytes (x ∷ xs) (suc offset) (suc count) h =
    take-drop_bytes xs offset (suc count) (omega arith)
    ∙ bytes_at-suc (λ i. get_or (x ∷ xs) i 0) offset (suc count)

take-length : (xs : List ℕ) → take (length xs) xs ≡ xs
take-length [] = refl
take-length (x ∷ xs) = ap (λ t. x ∷ t) (take-length xs)

pub bytes_at-get_or : (buf : List ℕ) → bytes_at (λ i. get_or buf i 0) 0 (length buf) ≡ buf
bytes_at-get_or buf = sym (take-drop_bytes buf 0 (length buf) (omega arith)) ∙ take-length buf

-- Copying into a block is writing over it.
pub splice-overlay :
    (xs : List ℕ) (offset : ℕ) (buf : List ℕ) (i : ℕ)
    → offset + length buf ≤ length xs
    → get_or (splice xs offset buf) i 0 ≡ overlay (λ k. get_or xs k 0) offset buf i
splice-overlay xs offset buf i h = elim (dec_lt i offset) [
  | yes p ↦
      rw (let e : leb offset i ≡ false = ground arith in e)
        (get_or-splice_out xs offset buf 0 i h (inl p))
  | no p ↦ elim (dec_lt i (offset + length buf)) [
    | yes q ↦
        let j = i - offset in
        rw (let e : leb offset i ≡ true = ground arith in e, lt→ltb i (offset + length buf) q)
          (ap (λ k. get_or (splice xs offset buf) k 0) (let e : i ≡ offset + j = omega arith in e)
            ∙ get_or-splice_in xs offset buf 0 j (omega arith) (omega arith))
    | no q ↦
        rw
          (
            let e : leb offset i ≡ true = ground arith in e,
            let e : ltb i (offset + length buf) ≡ false = ground arith in e,
          )
          (get_or-splice_out xs offset buf 0 i h (inr (omega arith)))
  ]
]
