-- ===== src/Ios/Write/Fast.antt =====
-- `ios_write_int_fast` of libpoke/ios.c: the bytes of a whole number of bytes at a byte boundary.
use poke.Base.{ℕ, ◌%◌, ◌==◌, if◌then◌else◌, List, [], ◌∷◌, Option, none, some}
use poke.Ios.Word.{Endian, lsb, msb, shr}

-- `c[i] = value >> k`
abbrev pub byte : ℕ → ℕ → ℕ
byte value k = shr value k % 256

unfoldable pub bytes_16 : Endian → ℕ → List ℕ
bytes_16 lsb v = byte v 0 ∷ byte v 8 ∷ []
bytes_16 msb v = byte v 8 ∷ byte v 0 ∷ []

unfoldable pub bytes_24 : Endian → ℕ → List ℕ
bytes_24 lsb v = byte v 0 ∷ byte v 8 ∷ byte v 16 ∷ []
bytes_24 msb v = byte v 16 ∷ byte v 8 ∷ byte v 0 ∷ []

unfoldable pub bytes_32 : Endian → ℕ → List ℕ
bytes_32 lsb v = byte v 0 ∷ byte v 8 ∷ byte v 16 ∷ byte v 24 ∷ []
bytes_32 msb v = byte v 24 ∷ byte v 16 ∷ byte v 8 ∷ byte v 0 ∷ []

unfoldable pub bytes_40 : Endian → ℕ → List ℕ
bytes_40 lsb v = byte v 0 ∷ byte v 8 ∷ byte v 16 ∷ byte v 24 ∷ byte v 32 ∷ []
bytes_40 msb v = byte v 32 ∷ byte v 24 ∷ byte v 16 ∷ byte v 8 ∷ byte v 0 ∷ []

unfoldable pub bytes_48 : Endian → ℕ → List ℕ
bytes_48 lsb v = byte v 0 ∷ byte v 8 ∷ byte v 16 ∷ byte v 24 ∷ byte v 32 ∷ byte v 40 ∷ []
bytes_48 msb v = byte v 40 ∷ byte v 32 ∷ byte v 24 ∷ byte v 16 ∷ byte v 8 ∷ byte v 0 ∷ []

unfoldable pub bytes_56 : Endian → ℕ → List ℕ
bytes_56 lsb v =
    byte v 0 ∷ byte v 8 ∷ byte v 16 ∷ byte v 24 ∷ byte v 32 ∷ byte v 40 ∷ byte v 48 ∷ []
bytes_56 msb v =
    byte v 48 ∷ byte v 40 ∷ byte v 32 ∷ byte v 24 ∷ byte v 16 ∷ byte v 8 ∷ byte v 0 ∷ []

unfoldable pub bytes_64 : Endian → ℕ → List ℕ
bytes_64 lsb v =
    byte v 0 ∷ byte v 8 ∷ byte v 16 ∷ byte v 24 ∷ byte v 32 ∷ byte v 40 ∷ byte v 48 ∷ byte v 56 ∷ []
bytes_64 msb v =
    byte v 56 ∷ byte v 48 ∷ byte v 40 ∷ byte v 32 ∷ byte v 24 ∷ byte v 16 ∷ byte v 8 ∷ byte v 0 ∷ []

-- The switch on `bits`; `none` is PK_UNREACHABLE.
unfoldable pub write_bytes_fast : ℕ → Endian → ℕ → Option (List ℕ)
write_bytes_fast bits endian v =
    if bits == 8
    then some (byte v 0 ∷ [])
    else if bits == 16
    then some (bytes_16 endian v)
    else if bits == 24
    then some (bytes_24 endian v)
    else if bits == 32
    then some (bytes_32 endian v)
    else if bits == 40
    then some (bytes_40 endian v)
    else if bits == 48
    then some (bytes_48 endian v)
    else if bits == 56
    then some (bytes_56 endian v)
    else if bits == 64
    then some (bytes_64 endian v)
    else none
