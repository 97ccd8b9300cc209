-- ===== src/Ios/Write/FastBytes.antt =====
-- The bytes that `ios_write_int_fast` (libpoke/ios.c) writes.
use poke.Base.{
  ℕ, zero, suc, ◌-◌, ◌*◌, ◌≤◌, ◌<◌, ◌≡◌, refl, arith, List, length, get_or, some, [], ◌∷◌,
}
use poke.Ios.Word.{Endian, lsb, msb}
use poke.Ios.Write.Fast.{
  byte, write_bytes_fast, bytes_16, bytes_24, bytes_32, bytes_40, bytes_48, bytes_56, bytes_64,
}

-- The place of byte `i` of `m`.
abbrev pub rank : Endian → ℕ → ℕ → ℕ
rank msb m i = m - suc i
rank lsb m i = i

-- The `m` low bytes of `v`, in a byte order.
pub record Bytes (endian : Endian) (m v : ℕ) (buf : List ℕ) : Type 0 where
  pub len : length buf ≡ m
  pub at : (i : ℕ) → i < m → get_or buf i 0 ≡ byte v (8 * rank endian m i)

bytes_16-Bytes : (endian : Endian) (v : ℕ) → Bytes endian 2 v (bytes_16 endian v)
unfolding bytes_16
bytes_16-Bytes lsb v = record { len = refl; at = at }
  where
    at : (i : ℕ) → i < 2 → get_or (bytes_16 lsb v) i 0 ≡ byte v (8 * rank lsb 2 i)
    at zero h = refl
    at (suc zero) h = refl
    at (suc (suc i)) h = absurd (omega arith)
bytes_16-Bytes msb v = record { len = refl; at = at }
  where
    at : (i : ℕ) → i < 2 → get_or (bytes_16 msb v) i 0 ≡ byte v (8 * rank msb 2 i)
    at zero h = refl
    at (suc zero) h = refl
    at (suc (suc i)) h = absurd (omega arith)

bytes_24-Bytes : (endian : Endian) (v : ℕ) → Bytes endian 3 v (bytes_24 endian v)
unfolding bytes_24
bytes_24-Bytes lsb v = record { len = refl; at = at }
  where
    at : (i : ℕ) → i < 3 → get_or (bytes_24 lsb v) i 0 ≡ byte v (8 * rank lsb 3 i)
    at zero h = refl
    at (suc zero) h = refl
    at (suc (suc zero)) h = refl
    at (suc (suc (suc i))) h = absurd (omega arith)
bytes_24-Bytes msb v = record { len = refl; at = at }
  where
    at : (i : ℕ) → i < 3 → get_or (bytes_24 msb v) i 0 ≡ byte v (8 * rank msb 3 i)
    at zero h = refl
    at (suc zero) h = refl
    at (suc (suc zero)) h = refl
    at (suc (suc (suc i))) h = absurd (omega arith)

bytes_32-Bytes : (endian : Endian) (v : ℕ) → Bytes endian 4 v (bytes_32 endian v)
unfolding bytes_32
bytes_32-Bytes lsb v = record { len = refl; at = at }
  where
    at : (i : ℕ) → i < 4 → get_or (bytes_32 lsb v) i 0 ≡ byte v (8 * rank lsb 4 i)
    at zero h = refl
    at (suc zero) h = refl
    at (suc (suc zero)) h = refl
    at (suc (suc (suc zero))) h = refl
    at (suc (suc (suc (suc i)))) h = absurd (omega arith)
bytes_32-Bytes msb v = record { len = refl; at = at }
  where
    at : (i : ℕ) → i < 4 → get_or (bytes_32 msb v) i 0 ≡ byte v (8 * rank msb 4 i)
    at zero h = refl
    at (suc zero) h = refl
    at (suc (suc zero)) h = refl
    at (suc (suc (suc zero))) h = refl
    at (suc (suc (suc (suc i)))) h = absurd (omega arith)

bytes_40-Bytes : (endian : Endian) (v : ℕ) → Bytes endian 5 v (bytes_40 endian v)
unfolding bytes_40
bytes_40-Bytes lsb v = record { len = refl; at = at }
  where
    at : (i : ℕ) → i < 5 → get_or (bytes_40 lsb v) i 0 ≡ byte v (8 * rank lsb 5 i)
    at zero h = refl
    at (suc zero) h = refl
    at (suc (suc zero)) h = refl
    at (suc (suc (suc zero))) h = refl
    at (suc (suc (suc (suc zero)))) h = refl
    at (suc (suc (suc (suc (suc i))))) h = absurd (omega arith)
bytes_40-Bytes msb v = record { len = refl; at = at }
  where
    at : (i : ℕ) → i < 5 → get_or (bytes_40 msb v) i 0 ≡ byte v (8 * rank msb 5 i)
    at zero h = refl
    at (suc zero) h = refl
    at (suc (suc zero)) h = refl
    at (suc (suc (suc zero))) h = refl
    at (suc (suc (suc (suc zero)))) h = refl
    at (suc (suc (suc (suc (suc i))))) h = absurd (omega arith)

bytes_48-Bytes : (endian : Endian) (v : ℕ) → Bytes endian 6 v (bytes_48 endian v)
unfolding bytes_48
bytes_48-Bytes lsb v = record { len = refl; at = at }
  where
    at : (i : ℕ) → i < 6 → get_or (bytes_48 lsb v) i 0 ≡ byte v (8 * rank lsb 6 i)
    at zero h = refl
    at (suc zero) h = refl
    at (suc (suc zero)) h = refl
    at (suc (suc (suc zero))) h = refl
    at (suc (suc (suc (suc zero)))) h = refl
    at (suc (suc (suc (suc (suc zero))))) h = refl
    at (suc (suc (suc (suc (suc (suc i)))))) h = absurd (omega arith)
bytes_48-Bytes msb v = record { len = refl; at = at }
  where
    at : (i : ℕ) → i < 6 → get_or (bytes_48 msb v) i 0 ≡ byte v (8 * rank msb 6 i)
    at zero h = refl
    at (suc zero) h = refl
    at (suc (suc zero)) h = refl
    at (suc (suc (suc zero))) h = refl
    at (suc (suc (suc (suc zero)))) h = refl
    at (suc (suc (suc (suc (suc zero))))) h = refl
    at (suc (suc (suc (suc (suc (suc i)))))) h = absurd (omega arith)

bytes_56-Bytes : (endian : Endian) (v : ℕ) → Bytes endian 7 v (bytes_56 endian v)
unfolding bytes_56
bytes_56-Bytes lsb v = record { len = refl; at = at }
  where
    at : (i : ℕ) → i < 7 → get_or (bytes_56 lsb v) i 0 ≡ byte v (8 * rank lsb 7 i)
    at zero h = refl
    at (suc zero) h = refl
    at (suc (suc zero)) h = refl
    at (suc (suc (suc zero))) h = refl
    at (suc (suc (suc (suc zero)))) h = refl
    at (suc (suc (suc (suc (suc zero))))) h = refl
    at (suc (suc (suc (suc (suc (suc zero)))))) h = refl
    at (suc (suc (suc (suc (suc (suc (suc i))))))) h = absurd (omega arith)
bytes_56-Bytes msb v = record { len = refl; at = at }
  where
    at : (i : ℕ) → i < 7 → get_or (bytes_56 msb v) i 0 ≡ byte v (8 * rank msb 7 i)
    at zero h = refl
    at (suc zero) h = refl
    at (suc (suc zero)) h = refl
    at (suc (suc (suc zero))) h = refl
    at (suc (suc (suc (suc zero)))) h = refl
    at (suc (suc (suc (suc (suc zero))))) h = refl
    at (suc (suc (suc (suc (suc (suc zero)))))) h = refl
    at (suc (suc (suc (suc (suc (suc (suc i))))))) h = absurd (omega arith)

bytes_64-Bytes : (endian : Endian) (v : ℕ) → Bytes endian 8 v (bytes_64 endian v)
unfolding bytes_64
bytes_64-Bytes lsb v = record { len = refl; at = at }
  where
    at : (i : ℕ) → i < 8 → get_or (bytes_64 lsb v) i 0 ≡ byte v (8 * rank lsb 8 i)
    at zero h = refl
    at (suc zero) h = refl
    at (suc (suc zero)) h = refl
    at (suc (suc (suc zero))) h = refl
    at (suc (suc (suc (suc zero)))) h = refl
    at (suc (suc (suc (suc (suc zero))))) h = refl
    at (suc (suc (suc (suc (suc (suc zero)))))) h = refl
    at (suc (suc (suc (suc (suc (suc (suc zero))))))) h = refl
    at (suc (suc (suc (suc (suc (suc (suc (suc i)))))))) h = absurd (omega arith)
bytes_64-Bytes msb v = record { len = refl; at = at }
  where
    at : (i : ℕ) → i < 8 → get_or (bytes_64 msb v) i 0 ≡ byte v (8 * rank msb 8 i)
    at zero h = refl
    at (suc zero) h = refl
    at (suc (suc zero)) h = refl
    at (suc (suc (suc zero))) h = refl
    at (suc (suc (suc (suc zero)))) h = refl
    at (suc (suc (suc (suc (suc zero))))) h = refl
    at (suc (suc (suc (suc (suc (suc zero)))))) h = refl
    at (suc (suc (suc (suc (suc (suc (suc zero))))))) h = refl
    at (suc (suc (suc (suc (suc (suc (suc (suc i)))))))) h = absurd (omega arith)

pub write_bytes_fast-Bytes :
    (m : ℕ) (endian : Endian) (v : ℕ)
    → 0 < m
    → m ≤ 8
    → (buf : List ℕ) × (write_bytes_fast (8 * m) endian v ≡ some buf) × Bytes endian m v buf
unfolding write_bytes_fast
write_bytes_fast-Bytes zero endian v h k = absurd (omega arith)
write_bytes_fast-Bytes (suc zero) endian v h k = (_, refl, record { len = refl; at = at endian })
  where
    at :
        (endian : Endian) (i : ℕ)
        → i < 1
        → get_or (byte v 0 ∷ []) i 0 ≡ byte v (8 * rank endian 1 i)
    at lsb zero h = refl
    at msb zero h = refl
    at endian (suc i) h = absurd (omega arith)
write_bytes_fast-Bytes (suc (suc zero)) endian v h k = (_, refl, bytes_16-Bytes endian v)
write_bytes_fast-Bytes (suc (suc (suc zero))) endian v h k = (_, refl, bytes_24-Bytes endian v)
write_bytes_fast-Bytes (suc (suc (suc (suc zero)))) endian v h k =
    (_, refl, bytes_32-Bytes endian v)
write_bytes_fast-Bytes (suc (suc (suc (suc (suc zero))))) endian v h k =
    (_, refl, bytes_40-Bytes endian v)
write_bytes_fast-Bytes (suc (suc (suc (suc (suc (suc zero)))))) endian v h k =
    (_, refl, bytes_48-Bytes endian v)
write_bytes_fast-Bytes (suc (suc (suc (suc (suc (suc (suc zero))))))) endian v h k =
    (_, refl, bytes_56-Bytes endian v)
write_bytes_fast-Bytes (suc (suc (suc (suc (suc (suc (suc (suc zero)))))))) endian v h k =
    (_, refl, bytes_64-Bytes endian v)
write_bytes_fast-Bytes (suc (suc (suc (suc (suc (suc (suc (suc (suc n))))))))) endian v h k =
    absurd (omega arith)
