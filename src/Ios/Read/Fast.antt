-- ===== src/Ios/Read/Fast.antt =====
-- The byte-aligned branches of `ios_read_uint` and `ios_read_int` (libpoke/ios.c): the switch on
-- `bits`, on the bytes `c` read. `none` is a width for which the switch has no case.
use poke.Base.{ℕ, ◌+◌, ◌-◌, ◌^◌, ◌==◌, ltb, if◌then◌else◌, Option, none, some, List, get_or}
use poke.Ios.Word.{Endian, lsb, msb, shl64, shl_int, sar64, ◌|||◌}

-- `c[i]`
abbrev at : List ℕ → ℕ → ℕ
at c i = get_or c i 0

-- `(int8_t) c`, stored into an `int64_t`.
unfoldable pub int8 : ℕ → ℕ
int8 c = if ltb c 128 then c else c + (2 ^ 64 - 2 ^ 8)

-- `*value = (uint64_t) *value << k; *value >>= k;`
unfoldable pub sign_extend : ℕ → ℕ → ℕ
unfolding sar64
sign_extend value k = sar64 (shl64 value k) k

unfoldable pub uint_16 : Endian → List ℕ → ℕ
uint_16 lsb c = shl_int (at c 1) 8 ||| (at c 0)
uint_16 msb c = shl_int (at c 0) 8 ||| (at c 1)

unfoldable pub int_16 : Endian → List ℕ → ℕ
int_16 lsb c = shl64 (at c 1) 8 ||| (at c 0)
int_16 msb c = shl64 (at c 0) 8 ||| (at c 1)

unfoldable pub uint_24 : Endian → List ℕ → ℕ
uint_24 lsb c = shl_int (at c 2) 16 ||| shl_int (at c 1) 8 ||| (at c 0)
uint_24 msb c = shl_int (at c 0) 16 ||| shl_int (at c 1) 8 ||| (at c 2)

unfoldable pub int_24 : Endian → List ℕ → ℕ
int_24 lsb c = shl64 (at c 2) 16 ||| shl64 (at c 1) 8 ||| (at c 0)
int_24 msb c = shl64 (at c 0) 16 ||| shl64 (at c 1) 8 ||| (at c 2)

unfoldable pub uint_32 : Endian → List ℕ → ℕ
uint_32 lsb c = shl64 (at c 3) 24 ||| shl_int (at c 2) 16 ||| shl_int (at c 1) 8 ||| (at c 0)
uint_32 msb c = shl64 (at c 0) 24 ||| shl_int (at c 1) 16 ||| shl_int (at c 2) 8 ||| (at c 3)

unfoldable pub int_32 : Endian → List ℕ → ℕ
int_32 lsb c = shl64 (at c 3) 24 ||| shl64 (at c 2) 16 ||| shl64 (at c 1) 8 ||| (at c 0)
int_32 msb c = shl64 (at c 0) 24 ||| shl64 (at c 1) 16 ||| shl64 (at c 2) 8 ||| (at c 3)

unfoldable pub uint_40 : Endian → List ℕ → ℕ
uint_40 lsb c =
    shl64 (at c 4) 32
    ||| shl64 (at c 3) 24
    ||| shl_int (at c 2) 16
    ||| shl_int (at c 1) 8
    ||| (at c 0)
uint_40 msb c =
    shl64 (at c 0) 32
    ||| shl64 (at c 1) 24
    ||| shl_int (at c 2) 16
    ||| shl_int (at c 3) 8
    ||| (at c 4)

unfoldable pub int_40 : Endian → List ℕ → ℕ
int_40 lsb c =
    shl64 (at c 4) 32
    ||| shl64 (at c 3) 24
    ||| shl_int (at c 2) 16
    ||| shl_int (at c 1) 8
    ||| (at c 0)
int_40 msb c =
    shl64 (at c 0) 32
    ||| shl64 (at c 1) 24
    ||| shl_int (at c 2) 16
    ||| shl_int (at c 3) 8
    ||| (at c 4)

unfoldable pub uint_48 : Endian → List ℕ → ℕ
uint_48 lsb c =
    shl64 (at c 5) 40
    ||| shl64 (at c 4) 32
    ||| shl64 (at c 3) 24
    ||| shl_int (at c 2) 16
    ||| shl_int (at c 1) 8
    ||| (at c 0)
uint_48 msb c =
    shl64 (at c 0) 40
    ||| shl64 (at c 1) 32
    ||| shl64 (at c 2) 24
    ||| shl_int (at c 3) 16
    ||| shl_int (at c 4) 8
    ||| (at c 5)

unfoldable pub int_48 : Endian → List ℕ → ℕ
int_48 lsb c =
    shl64 (at c 5) 40
    ||| shl64 (at c 4) 32
    ||| shl64 (at c 3) 24
    ||| shl_int (at c 2) 16
    ||| shl_int (at c 1) 8
    ||| (at c 0)
int_48 msb c =
    shl64 (at c 0) 40
    ||| shl64 (at c 1) 32
    ||| shl64 (at c 2) 24
    ||| shl_int (at c 3) 16
    ||| shl_int (at c 4) 8
    ||| (at c 5)

unfoldable pub uint_56 : Endian → List ℕ → ℕ
uint_56 lsb c =
    shl64 (at c 6) 48
    ||| shl64 (at c 5) 40
    ||| shl64 (at c 4) 32
    ||| shl64 (at c 3) 24
    ||| shl_int (at c 2) 16
    ||| shl_int (at c 1) 8
    ||| (at c 0)
uint_56 msb c =
    shl64 (at c 0) 48
    ||| shl64 (at c 1) 40
    ||| shl64 (at c 2) 32
    ||| shl64 (at c 3) 24
    ||| shl_int (at c 4) 16
    ||| shl_int (at c 5) 8
    ||| (at c 6)

unfoldable pub int_56 : Endian → List ℕ → ℕ
int_56 lsb c =
    shl64 (at c 6) 48
    ||| shl64 (at c 5) 40
    ||| shl64 (at c 4) 32
    ||| shl64 (at c 3) 24
    ||| shl_int (at c 2) 16
    ||| shl_int (at c 1) 8
    ||| (at c 0)
int_56 msb c =
    shl64 (at c 0) 48
    ||| shl64 (at c 1) 40
    ||| shl64 (at c 2) 32
    ||| shl64 (at c 3) 24
    ||| shl_int (at c 4) 16
    ||| shl_int (at c 5) 8
    ||| (at c 6)

unfoldable pub uint_64 : Endian → List ℕ → ℕ
uint_64 lsb c =
    shl64 (at c 7) 56
    ||| shl64 (at c 6) 48
    ||| shl64 (at c 5) 40
    ||| shl64 (at c 4) 32
    ||| shl64 (at c 3) 24
    ||| shl_int (at c 2) 16
    ||| shl_int (at c 1) 8
    ||| (at c 0)
uint_64 msb c =
    shl64 (at c 0) 56
    ||| shl64 (at c 1) 48
    ||| shl64 (at c 2) 40
    ||| shl64 (at c 3) 32
    ||| shl64 (at c 4) 24
    ||| shl_int (at c 5) 16
    ||| shl_int (at c 6) 8
    ||| (at c 7)

unfoldable pub int_64 : Endian → List ℕ → ℕ
int_64 lsb c =
    shl64 (at c 7) 56
    ||| shl64 (at c 6) 48
    ||| shl64 (at c 5) 40
    ||| shl64 (at c 4) 32
    ||| shl64 (at c 3) 24
    ||| shl_int (at c 2) 16
    ||| shl_int (at c 1) 8
    ||| (at c 0)
int_64 msb c =
    shl64 (at c 0) 56
    ||| shl64 (at c 1) 48
    ||| shl64 (at c 2) 40
    ||| shl64 (at c 3) 32
    ||| shl64 (at c 4) 24
    ||| shl_int (at c 5) 16
    ||| shl_int (at c 6) 8
    ||| (at c 7)

-- The switch of `ios_read_uint`.
unfoldable pub read_uint_fast : ℕ → Endian → List ℕ → Option ℕ
read_uint_fast bits endian c =
    if bits == 8
    then some (at c 0)
    else if bits == 16
    then some (uint_16 endian c)
    else if bits == 24
    then some (uint_24 endian c)
    else if bits == 32
    then some (uint_32 endian c)
    else if bits == 40
    then some (uint_40 endian c)
    else if bits == 48
    then some (uint_48 endian c)
    else if bits == 56
    then some (uint_56 endian c)
    else if bits == 64
    then some (uint_64 endian c)
    else none

-- The switch of `ios_read_int`.
unfoldable pub read_int_fast : ℕ → Endian → List ℕ → Option ℕ
read_int_fast bits endian c =
    if bits == 8
    then some (int8 (at c 0))
    else if bits == 16
    then some (sign_extend (int_16 endian c) 48)
    else if bits == 24
    then some (sign_extend (int_24 endian c) 40)
    else if bits == 32
    then some (sign_extend (int_32 endian c) 32)
    else if bits == 40
    then some (sign_extend (int_40 endian c) 24)
    else if bits == 48
    then some (sign_extend (int_48 endian c) 16)
    else if bits == 56
    then some (sign_extend (int_56 endian c) 8)
    else if bits == 64
    then some (int_64 endian c)
    else none
