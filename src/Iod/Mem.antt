-- ===== src/Iod/Mem.antt =====
-- libpoke/ios-dev-mem.c: the memory device.
pub mod Laws
mod Tests
use mathlib.Core.Bool.{not}
use poke.Base.{
  ℕ, zero, suc, ◌+◌, ◌-◌, ◌*◌, ◌%◌, ◌^◌, ◌≤◌, ◌<◌, ◌≡◌, refl, ◌∙◌, ap, arith, Bool, true, false,
  ltb, ◌==◌, ◌&&◌, if◌then◌else◌, List, [], ◌∷◌, ◌++◌, length, get_or, take, drop, replicate,
  splice, bit_or, Option, none, some,
}
use poke.Iod.{DevIf, iod_ok, iod_error, iod_enomem, iod_eof, ios_f_read, ios_f_write}

-- `struct ios_dev_mem`
pub record MemDev : Type 0 where
  pub pointer : List ℕ
  pub size : ℕ
  pub flags : ℕ

-- MEM_STEP
abbrev pub mem_step : ℕ
mem_step = 512 * 8

-- `offset + count` at `uint64_t`.
abbrev pub add64 : ℕ → ℕ → ℕ
add64 a b = (a + b) % 2 ^ 64

-- The last byte of a string that is not empty, and 0 for the empty one, which is not tested.
abbrev last_byte : List ℕ → ℕ
last_byte handler = get_or handler (length handler - 1) 0

-- The result is the new handler, NULL as `none`, and `*error`. `copied` tells whether `strdup` had
-- memory; its failure is stored and then overwritten by IOD_OK.
unfoldable pub handler_normalize : (copied : Bool) → List ℕ → Option (List ℕ) × ℕ
handler_normalize copied handler =
    if (get_or handler 0 0 == b'*') && (last_byte handler == b'*')
    then (if copied then (some handler, iod_ok) else (none, iod_ok))
    else (none, iod_ok)

-- `mallocated` and `callocated` tell whether the two allocations had memory.
unfoldable pub open_mem : (mallocated callocated : Bool) → Option MemDev × ℕ
open_mem mallocated callocated =
    if mallocated
    then (if callocated
        then (
          some (record {
            pointer = replicate mem_step 0;
            size = mem_step;
            flags = bit_or ios_f_read ios_f_write;
          }),
          iod_ok,
        )
        else (none, iod_enomem))
    else (none, iod_enomem)

unfoldable pub pread : MemDev → ℕ → ℕ → ℕ × List ℕ × MemDev
pread mio count offset =
    if ltb mio.size (add64 offset count)
    then (iod_eof, [], mio)
    else (iod_ok, take count (drop offset mio.pointer), mio)

-- The block after `realloc` and `memset`, or as it was.
abbrev pub grown : MemDev → MemDev
grown mio = record mio {
  pointer = mio.pointer ++ replicate mem_step 0;
  size = add64 mio.size mem_step;
}

-- `memcpy` into the block
abbrev pub copied : MemDev → List ℕ → ℕ → MemDev
copied mio buf offset = record mio { pointer = splice mio.pointer offset buf }

-- `reallocated n` tells whether a block of `n` bytes can be had.
module _ (reallocated : ℕ → Bool) where
  unfoldable pub pwrite : MemDev → List ℕ → ℕ → ℕ × MemDev
  pwrite mio buf offset =
      let end = add64 offset (length buf) in
      if ltb (add64 mio.size mem_step) end
      then (iod_eof, mio)
      else if ltb mio.size end
      then if reallocated (add64 mio.size mem_step)
        then (iod_ok, copied (grown mio) buf offset)
        else (iod_error, mio)
      else (iod_ok, copied mio buf offset)

  -- `ios_dev_mem`
  unfoldable pub mem_dev_if : DevIf MemDev
  unfolding pread pwrite
  mem_dev_if = record {
    pread = pread;
    pwrite = pwrite;
    get_flags = λ mio. mio.flags;
    size = λ mio. mio.size;
  }
