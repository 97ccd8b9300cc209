-- ===== src/Iod/Mem/Tests.antt =====
-- Runs of libpoke/ios-dev-mem.c on a device of three bytes.
use poke.Base.{ℕ, ◌≡◌, ◌<◌, ◌^◌, refl, false, true, Bool, [], ◌∷◌, some, none, arith}
use poke.Iod.{iod_ok, bytes_at}
use poke.Iod.Mem.{MemDev, pread, pwrite, handler_normalize}
use poke.Iod.Mem.Laws.{IsValid, Written, pread_lem, pwrite-Written, pread-pwrite}

abbrev three : MemDev
three = record { pointer = 0xab ∷ 0xcd ∷ 0xef ∷ []; size = 3; flags = 3 }

abbrev three' : MemDev
three' = record { pointer = 0xab ∷ 1 ∷ 2 ∷ []; size = 3; flags = 3 }

abbrev no_memory : ℕ → Bool
no_memory n = false

valid : IsValid three
valid = record { block = refl; small = omega arith }

bounded : (n : ℕ) → no_memory n ≡ true → n < 2 ^ 63
bounded n h = ground arith

-- The handler of a memory IO space begins and ends with `*`. Without memory for its copy there is
-- no handler, and yet no error.
normalized :
    (handler_normalize true (b'*' ∷ 120 ∷ b'*' ∷ []) ≡ (some (b'*' ∷ 120 ∷ b'*' ∷ []), iod_ok))
    × (handler_normalize true (120 ∷ b'*' ∷ []) ≡ (none, iod_ok))
    × (handler_normalize false (b'*' ∷ 120 ∷ b'*' ∷ []) ≡ (none, iod_ok))
unfolding handler_normalize
normalized = (refl, refl, refl)

wrote : pwrite no_memory three (1 ∷ 2 ∷ []) 1 ≡ (iod_ok, three')
unfolding pwrite
wrote = refl

pread_lem_example : pread three 2 1 ≡ (iod_ok, 0xcd ∷ 0xef ∷ [], three)
unfolding bytes_at
pread_lem_example = pread_lem three 2 1 valid (omega arith)

pwrite-Written_example : Written three (1 ∷ 2 ∷ []) 1 three'
pwrite-Written_example = pwrite-Written no_memory bounded (1 ∷ 2 ∷ []) 1 (omega arith) valid wrote

pread-pwrite_example : pread three' 2 1 ≡ (iod_ok, 1 ∷ 2 ∷ [], three')
pread-pwrite_example = pread-pwrite no_memory bounded (1 ∷ 2 ∷ []) 1 (omega arith) valid wrote
