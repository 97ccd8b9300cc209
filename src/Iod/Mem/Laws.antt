-- ===== src/Iod/Mem/Laws.antt =====
-- The memory device is a memory of bytes that is 0 where it was never written.
use poke.Base.{
  ℕ, ◌+◌, ◌-◌, ◌≤◌, ◌<◌, ◌^◌, ◌≡◌, ◌≢◌, inl, inr, refl, ◌∙◌, ap, subst, arith, Bool, true, false,
  ltb, leb, ◌&&◌, if◌then◌else◌, List, length, get_or, replicate, length-append, length-replicate,
  length-splice, get_or-append_replicate, Bool-cases, [], lt→ltb,
}
use native.Mathlib.Decide.{dec_lt}
use native.Mathlib.Nat.{mod-eq_of_lt}
use poke.Iod.{
  splice-overlay, iod_ok, iod_error, iod_eof, bytes_at, overlay, take-drop_bytes, bytes_at-congr,
  bytes_at-get_or,
}
use poke.Iod.Mem.{MemDev, mem_step, add64, pread, pwrite, grown, copied}

-- The block has the size that the device says, and is no larger than an object can be.
pub record IsValid (mio : MemDev) : Type 0 where
  pub block : length mio.pointer ≡ mio.size
  pub small : mio.size < 2 ^ 63

-- The bytes of the device.
abbrev pub contents : MemDev → ℕ → ℕ
contents mio i = get_or mio.pointer i 0

-- On a valid device, a read whose range ends below 2 ^ 64 returns the bytes of the device when the
-- range is inside it, and IOD_EOF when it is not; neither changes the device.
pub pread_lem :
    (mio : MemDev) (count offset : ℕ)
    → IsValid mio
    → offset + count < 2 ^ 64
    → pread mio count offset ≡ (
        if leb (offset + count) mio.size
        then (iod_ok, bytes_at (contents mio) offset count, mio)
        else (iod_eof, [], mio))
unfolding pread
pread_lem mio count offset v fits =
    let sum : add64 offset count ≡ offset + count = mod-eq_of_lt fits in
    rw sum (elim (dec_lt mio.size (offset + count)) [
      | yes p ↦ rw (
        lt→ltb mio.size (offset + count) p,
        let e : leb (offset + count) mio.size ≡ false = ground arith in e,
      )
      | no p ↦ rw (
        let e : ltb mio.size (offset + count) ≡ false = ground arith in e,
        let e : leb (offset + count) mio.size ≡ true = ground arith in e,
        take-drop_bytes mio.pointer offset count (rw v.block (omega arith)),
      )
    ])

length-grown : (mio : MemDev) → IsValid mio → length (grown mio).pointer ≡ (grown mio).size
length-grown mio v = omega (
  arith,
  v.small,
  v.block,
  length-append mio.pointer (replicate mem_step 0),
  length-replicate {A = ℕ} mem_step 0,
)

-- A write copies into a block that holds the range.
copied_lem :
    (mio : MemDev) (buf : List ℕ) (offset : ℕ)
    → length mio.pointer ≡ mio.size
    → offset + length buf ≤ mio.size
    → (length (copied mio buf offset).pointer ≡ mio.size)
      × ((i : ℕ) → contents (copied mio buf offset) i ≡ overlay (contents mio) offset buf i)
copied_lem mio buf offset block h = (
  rw (length-splice mio.pointer offset buf (rw block h)) block,
  λ i. splice-overlay mio.pointer offset buf i (rw block h),
)

-- What a write can do.
pub data Outcome (reallocated : ℕ → Bool) (mio : MemDev) (buf : List ℕ) (offset : ℕ)
    : ℕ × MemDev → Type 0 where
  too_far :
      mio.size + mem_step < offset + length buf → Outcome reallocated mio buf offset (iod_eof, mio)
  no_memory :
      mio.size < offset + length buf
      → reallocated (add64 mio.size mem_step) ≡ false
      → Outcome reallocated mio buf offset (iod_error, mio)
  in_place :
      offset + length buf ≤ mio.size
      → Outcome reallocated mio buf offset (iod_ok, copied mio buf offset)
  extended :
      mio.size < offset + length buf
      → offset + length buf ≤ mio.size + mem_step
      → reallocated (add64 mio.size mem_step) ≡ true
      → Outcome reallocated mio buf offset (iod_ok, copied (grown mio) buf offset)

pub pwrite-Outcome :
    (reallocated : ℕ → Bool) (mio : MemDev) (buf : List ℕ) (offset : ℕ)
    → offset + length buf < 2 ^ 64
    → IsValid mio
    → Outcome reallocated mio buf offset (pwrite reallocated mio buf offset)
unfolding pwrite
pwrite-Outcome reallocated mio buf offset fits v =
    let sum : add64 offset (length buf) ≡ offset + length buf = mod-eq_of_lt fits in
    let more : add64 mio.size mem_step ≡ mio.size + mem_step = omega (arith, v.small) in
    rw sum (elim (dec_lt (add64 mio.size mem_step) (offset + length buf)) [
      | yes p ↦ rw (lt→ltb _ _ p) (too_far (omega arith))
      | no p ↦
          rw
            (let e : ltb (add64 mio.size mem_step) (offset + length buf) ≡ false = ground arith in
              e)
            (elim (dec_lt mio.size (offset + length buf)) [
              | yes q ↦
                  rw (lt→ltb mio.size _ q)
                    (elim (Bool-cases (reallocated (add64 mio.size mem_step))) [
                      | inl r ↦ rw r (extended q (omega arith) r)
                      | inr r ↦ rw r (no_memory q r)
                    ])
              | no q ↦
                  rw (let e : ltb mio.size (offset + length buf) ≡ false = ground arith in e)
                    (in_place (omega arith))
            ])
    ])

-- `mio'` is valid, no smaller than `mio`, holds the whole range, and has the contents of `mio` with
-- `buf` written over them.
abbrev pub Written : MemDev → List ℕ → ℕ → MemDev → Type 0
Written mio buf offset mio' =
    IsValid mio'
    × (mio.size ≤ mio'.size)
    × (offset + length buf ≤ mio'.size)
    × ((i : ℕ) → contents mio' i ≡ overlay (contents mio) offset buf i)

overlay-congr :
    (mem mem' : ℕ → ℕ) (offset : ℕ) (buf : List ℕ)
    → ((i : ℕ) → mem i ≡ mem' i)
    → (i : ℕ) → overlay mem offset buf i ≡ overlay mem' offset buf i
overlay-congr mem mem' offset buf same i =
    ap (λ x. if leb offset i && ltb i (offset + length buf) then get_or buf (i - offset) 0 else x)
      (same i)

-- A `realloc` that succeeds returns an object, which has fewer than 2 ^ 63 bytes.
module _ (reallocated : ℕ → Bool) (bounded : (n : ℕ) → reallocated n ≡ true → n < 2 ^ 63)
    {mio mio' : MemDev} (buf : List ℕ) (offset : ℕ) (fits : offset + length buf < 2 ^ 64)
    (valid : IsValid mio) (wrote : pwrite reallocated mio buf offset ≡ (iod_ok, mio')) where
  extended-Written :
      offset + length buf ≤ mio.size + mem_step
      → reallocated (add64 mio.size mem_step) ≡ true
      → Written mio buf offset (copied (grown mio) buf offset)
  extended-Written k r =
      let more : add64 mio.size mem_step ≡ mio.size + mem_step = omega (arith, valid.small) in
      let inner = copied_lem (grown mio) buf offset (length-grown mio valid) (omega arith) in
      (
        record { block = inner.0; small = bounded (add64 mio.size mem_step) r },
        omega arith,
        omega arith,
        λ i.
            inner.1 i
            ∙ overlay-congr (contents (grown mio)) (contents mio) offset buf
                (get_or-append_replicate mio.pointer mem_step 0) i,
      )

  -- On a valid device, a write whose range ends below 2 ^ 64 and that succeeds keeps the device valid, never makes it smaller, holds the whole range, and
  -- writes the buffer over the contents; what it adds to the device reads as 0.
  pub pwrite-Written : Written mio buf offset mio'
  pwrite-Written =
      by_outcome (rw wrote at (pwrite-Outcome reallocated mio buf offset fits valid)) refl
    where
      by_outcome :
          {r : ℕ × MemDev}
          → Outcome reallocated mio buf offset r
          → r ≡ (iod_ok, mio')
          → Written mio buf offset mio'
      by_outcome (too_far h) e = absurd (omega (arith, ap (λ (p : ℕ × MemDev). p.0) e))
      by_outcome (no_memory h r) e = absurd (omega (arith, ap (λ (p : ℕ × MemDev). p.0) e))
      by_outcome (in_place h) e =
          let inner = copied_lem mio buf offset valid.block h in
          subst (Written mio buf offset) (ap (λ (p : ℕ × MemDev). p.1) e)
            (record { block = inner.0; small = valid.small }, omega arith, h, inner.1)
      by_outcome (extended h k r) e =
          subst (Written mio buf offset) (ap (λ (p : ℕ × MemDev). p.1) e) (extended-Written k r)

  -- After a write on a valid device that succeeds, with a range that ends below 2 ^ 64, a read of that
  -- range gives the buffer.
  pub pread-pwrite : pread mio' (length buf) offset ≡ (iod_ok, buf, mio')
  pread-pwrite =
      let w = pwrite-Written in
      pread_lem mio' (length buf) offset w.0 fits
      ∙ rw (let e : leb (offset + length buf) mio'.size ≡ true = ground (arith, w.2) in e) (
          ap (λ b. (iod_ok, b, mio'))
            (bytes_at-congr (contents mio') (λ i. get_or buf i 0) offset 0 (length buf)
                (λ i h.
                  w.3 (offset + i)
                  ∙ ground (
                    arith,
                    ap (λ (k : ℕ). get_or buf k 0)
                        (let e : offset + i - offset ≡ 0 + i = omega arith in e),
                  ))
              ∙ bytes_at-get_or buf))

-- No write changes the flags.
pub pwrite_flags :
    (reallocated : ℕ → Bool) (mio : MemDev) (buf : List ℕ) (offset : ℕ)
    → (pwrite reallocated mio buf offset).1.flags ≡ mio.flags
unfolding pwrite
pwrite_flags reallocated mio buf offset =
    let end = add64 offset (length buf) in
    elim (Bool-cases (ltb (add64 mio.size mem_step) end)) [
      | inl p ↦ rw p
      | inr p ↦ elim (Bool-cases (ltb mio.size end)) [
        | inl q ↦ elim (Bool-cases (reallocated (add64 mio.size mem_step))) [
          | inl r ↦ rw (p, q, r)
          | inr r ↦ rw (p, q, r)
        ]
        | inr q ↦ rw (p, q)
      ]
    ]

-- A write inside the device succeeds.
pub pwrite_inside :
    (reallocated : ℕ → Bool) (mio : MemDev) (buf : List ℕ) (offset : ℕ)
    → IsValid mio
    → offset + length buf ≤ mio.size
    → (pwrite reallocated mio buf offset).0 ≡ iod_ok
unfolding pwrite
pwrite_inside reallocated mio buf offset v h =
    let sum : add64 offset (length buf) ≡ offset + length buf =
      mod-eq_of_lt (omega (arith, v.small)) in
    let more : add64 mio.size mem_step ≡ mio.size + mem_step = omega (arith, v.small) in
    rw (
      sum,
      more,
      let e : ltb (mio.size + mem_step) (offset + length buf) ≡ false = ground arith in e,
      let e : ltb mio.size (offset + length buf) ≡ false = ground arith in e,
    )

-- A write that fails changes nothing.
pub pwrite_refused :
    (reallocated : ℕ → Bool) (mio : MemDev) (buf : List ℕ) (offset : ℕ)
    → (pwrite reallocated mio buf offset).0 ≢ iod_ok
    → (pwrite reallocated mio buf offset).1 ≡ mio
unfolding pwrite
pwrite_refused reallocated mio buf offset bad =
    let end = add64 offset (length buf) in
    elim (Bool-cases (ltb (add64 mio.size mem_step) end)) [
      | inl p ↦ rw p
      | inr p ↦ elim (Bool-cases (ltb mio.size end)) [
        | inl q ↦ elim (Bool-cases (reallocated (add64 mio.size mem_step))) [
          | inl r ↦ absurd (rw (p, q, r) at bad refl)
          | inr r ↦ rw (p, q, r)
        ]
        | inr q ↦ absurd (rw (p, q) at bad refl)
      ]
    ]
