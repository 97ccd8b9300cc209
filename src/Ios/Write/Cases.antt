-- ===== src/Ios/Write/Cases.antt =====
-- `ios_write_int_common` of libpoke/ios.c: the bytes that each case of its switch writes. `c0` is the
-- first byte with its trailing bits cleared, `cn` the last one with its leading bits cleared.
use poke.Base.{ℕ, zero, suc, ◌+◌, ◌-◌, ◌%◌, List, [], ◌∷◌, Option, none, some}
use poke.Ios.Word.{Endian, lsb, msb, shl64, shr, ◌|||◌, ◌&&&◌}
use poke.Ios.Write.Order.{order_1, order_2, order_3, order_4, order_5, order_6, order_7, order_8}

-- The value as it is written, in the case `k`.
unfoldable pub ordered : (k : ℕ) → Endian → (bits value : ℕ) → ℕ
ordered k msb bits v = v
ordered zero lsb bits v = v
ordered (suc zero) lsb bits v = order_1 bits v
ordered (suc (suc zero)) lsb bits v = order_2 bits v
ordered (suc (suc (suc zero))) lsb bits v = order_3 bits v
ordered (suc (suc (suc (suc zero)))) lsb bits v = order_4 bits v
ordered (suc (suc (suc (suc (suc zero))))) lsb bits v = order_5 bits v
ordered (suc (suc (suc (suc (suc (suc zero)))))) lsb bits v = order_6 bits v
ordered (suc (suc (suc (suc (suc (suc (suc zero))))))) lsb bits v = order_7 bits v
ordered (suc (suc (suc (suc (suc (suc (suc (suc zero)))))))) lsb bits v = order_8 bits v
ordered (suc (suc (suc (suc (suc (suc (suc (suc (suc k))))))))) lsb bits v = v

-- `case 0`: a single byte.
unfoldable pub write_case_0 : (lastbyte_bits value head tail : ℕ) → List ℕ
write_case_0 lastbyte_bits v head tail = (head ||| tail ||| shl64 v (8 - lastbyte_bits)) % 256 ∷ []

-- `case 1`
unfoldable pub write_case_1 : (lastbyte_bits value c0 cn : ℕ) → List ℕ
write_case_1 lastbyte_bits v c0 cn =
    (c0 ||| shr v lastbyte_bits) % 256 ∷ (cn ||| (shl64 v (8 - lastbyte_bits) &&& 0xff)) ∷ []

-- `case 2`
unfoldable pub write_case_2 : (lastbyte_bits value c0 cn : ℕ) → List ℕ
write_case_2 lastbyte_bits v c0 cn =
    (c0 ||| shr v (8 + lastbyte_bits)) % 256
    ∷ (shr v lastbyte_bits &&& 0xff)
    ∷ (cn ||| (shl64 v (8 - lastbyte_bits) &&& 0xff))
    ∷ []

-- `case 3`
unfoldable pub write_case_3 : (lastbyte_bits value c0 cn : ℕ) → List ℕ
write_case_3 lastbyte_bits v c0 cn =
    (c0 ||| shr v (16 + lastbyte_bits)) % 256
    ∷ (shr v (8 + lastbyte_bits) &&& 0xff)
    ∷ (shr v lastbyte_bits &&& 0xff)
    ∷ (cn ||| (shl64 v (8 - lastbyte_bits) &&& 0xff))
    ∷ []

-- `case 4`
unfoldable pub write_case_4 : (lastbyte_bits value c0 cn : ℕ) → List ℕ
write_case_4 lastbyte_bits v c0 cn =
    (c0 ||| shr v (24 + lastbyte_bits)) % 256
    ∷ (shr v (16 + lastbyte_bits) &&& 0xff)
    ∷ (shr v (8 + lastbyte_bits) &&& 0xff)
    ∷ (shr v lastbyte_bits &&& 0xff)
    ∷ (cn ||| (shl64 v (8 - lastbyte_bits) &&& 0xff))
    ∷ []

-- `case 5`
unfoldable pub write_case_5 : (lastbyte_bits value c0 cn : ℕ) → List ℕ
write_case_5 lastbyte_bits v c0 cn =
    (c0 ||| shr v (32 + lastbyte_bits)) % 256
    ∷ (shr v (24 + lastbyte_bits) &&& 0xff)
    ∷ (shr v (16 + lastbyte_bits) &&& 0xff)
    ∷ (shr v (8 + lastbyte_bits) &&& 0xff)
    ∷ (shr v lastbyte_bits &&& 0xff)
    ∷ (cn ||| (shl64 v (8 - lastbyte_bits) &&& 0xff))
    ∷ []

-- `case 6`
unfoldable pub write_case_6 : (lastbyte_bits value c0 cn : ℕ) → List ℕ
write_case_6 lastbyte_bits v c0 cn =
    (c0 ||| shr v (40 + lastbyte_bits)) % 256
    ∷ (shr v (32 + lastbyte_bits) &&& 0xff)
    ∷ (shr v (24 + lastbyte_bits) &&& 0xff)
    ∷ (shr v (16 + lastbyte_bits) &&& 0xff)
    ∷ (shr v (8 + lastbyte_bits) &&& 0xff)
    ∷ (shr v lastbyte_bits &&& 0xff)
    ∷ (cn ||| (shl64 v (8 - lastbyte_bits) &&& 0xff))
    ∷ []

-- `case 7`
unfoldable pub write_case_7 : (lastbyte_bits value c0 cn : ℕ) → List ℕ
write_case_7 lastbyte_bits v c0 cn =
    (c0 ||| shr v (48 + lastbyte_bits)) % 256
    ∷ (shr v (40 + lastbyte_bits) &&& 0xff)
    ∷ (shr v (32 + lastbyte_bits) &&& 0xff)
    ∷ (shr v (24 + lastbyte_bits) &&& 0xff)
    ∷ (shr v (16 + lastbyte_bits) &&& 0xff)
    ∷ (shr v (8 + lastbyte_bits) &&& 0xff)
    ∷ (shr v lastbyte_bits &&& 0xff)
    ∷ (cn ||| (shl64 v (8 - lastbyte_bits) &&& 0xff))
    ∷ []

-- `case 8`
unfoldable pub write_case_8 : (lastbyte_bits value c0 cn : ℕ) → List ℕ
write_case_8 lastbyte_bits v c0 cn =
    (c0 ||| shr v (56 + lastbyte_bits)) % 256
    ∷ (shr v (48 + lastbyte_bits) &&& 0xff)
    ∷ (shr v (40 + lastbyte_bits) &&& 0xff)
    ∷ (shr v (32 + lastbyte_bits) &&& 0xff)
    ∷ (shr v (24 + lastbyte_bits) &&& 0xff)
    ∷ (shr v (16 + lastbyte_bits) &&& 0xff)
    ∷ (shr v (8 + lastbyte_bits) &&& 0xff)
    ∷ (shr v lastbyte_bits &&& 0xff)
    ∷ (cn ||| (shl64 v (8 - lastbyte_bits) &&& 0xff))
    ∷ []

-- The cases from 1 on, on the value put in order; `none` is PK_UNREACHABLE.
unfoldable pub write_switch : (bytes_minus1 lastbyte_bits value c0 cn : ℕ) → Option (List ℕ)
write_switch zero lastbyte_bits v c0 cn = none
write_switch (suc zero) lastbyte_bits v c0 cn = some (write_case_1 lastbyte_bits v c0 cn)
write_switch (suc (suc zero)) lastbyte_bits v c0 cn = some (write_case_2 lastbyte_bits v c0 cn)
write_switch (suc (suc (suc zero))) lastbyte_bits v c0 cn =
    some (write_case_3 lastbyte_bits v c0 cn)
write_switch (suc (suc (suc (suc zero)))) lastbyte_bits v c0 cn =
    some (write_case_4 lastbyte_bits v c0 cn)
write_switch (suc (suc (suc (suc (suc zero))))) lastbyte_bits v c0 cn =
    some (write_case_5 lastbyte_bits v c0 cn)
write_switch (suc (suc (suc (suc (suc (suc zero)))))) lastbyte_bits v c0 cn =
    some (write_case_6 lastbyte_bits v c0 cn)
write_switch (suc (suc (suc (suc (suc (suc (suc zero))))))) lastbyte_bits v c0 cn =
    some (write_case_7 lastbyte_bits v c0 cn)
write_switch (suc (suc (suc (suc (suc (suc (suc (suc zero)))))))) lastbyte_bits v c0 cn =
    some (write_case_8 lastbyte_bits v c0 cn)
write_switch (suc (suc (suc (suc (suc (suc (suc (suc (suc k))))))))) lastbyte_bits v c0 cn = none
