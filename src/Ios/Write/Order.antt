-- ===== src/Ios/Write/Order.antt =====
-- `ios_write_int_common` of libpoke/ios.c: the little endian value in the order in which its bits are
-- written. A value of `n` groups has `n - 1` whole groups of eight bits, the least significant one
-- first, and then its top bits.
use poke.Base.{ℕ, ◌+◌, ◌-◌, ◌%◌, ltb, if◌then◌else◌}
use poke.Ios.Word.{shl64, shr, bswap64, ◌|||◌, ◌&&&◌}

-- 2 groups.
unfoldable pub swap_2 : (bits value : ℕ) → ℕ
swap_2 bits v = shl64 (v &&& 0xff) (bits % 8) ||| shr (v &&& 0xff00) 8

-- 3 groups.
unfoldable pub swap_3 : (bits value : ℕ) → ℕ
swap_3 bits v =
    shl64 (v &&& 0xff) (8 + bits % 8)
    ||| shr (v &&& 0xff00) (8 - bits % 8)
    ||| shr (v &&& 0xff0000) 16

-- 4 groups.
unfoldable pub swap_4 : (bits value : ℕ) → ℕ
swap_4 bits v =
    shl64 (v &&& 0xff) (16 + bits % 8)
    ||| shl64 (v &&& 0xff00) (bits % 8)
    ||| shr (v &&& 0xff0000) (16 - bits % 8)
    ||| shr (v &&& 0xff000000) 24

-- 5 groups.
unfoldable pub swap_5 : (bits value : ℕ) → ℕ
swap_5 bits v =
    shl64 (v &&& 0xff) (24 + bits % 8)
    ||| shl64 (v &&& 0xff00) (8 + bits % 8)
    ||| shr (v &&& 0xff0000) (8 - bits % 8)
    ||| shr (v &&& 0xff000000) (24 - bits % 8)
    ||| shr (v &&& 0xff00000000) 32

-- 6 groups.
unfoldable pub swap_6 : (bits value : ℕ) → ℕ
swap_6 bits v =
    shl64 (v &&& 0xff) (32 + bits % 8)
    ||| shl64 (v &&& 0xff00) (16 + bits % 8)
    ||| shl64 (v &&& 0xff0000) (bits % 8)
    ||| shr (v &&& 0xff000000) (16 - bits % 8)
    ||| shr (v &&& 0xff00000000) (32 - bits % 8)
    ||| shr (v &&& 0xff0000000000) 40

-- 7 groups.
unfoldable pub swap_7 : (bits value : ℕ) → ℕ
swap_7 bits v =
    shl64 (v &&& 0xff) (40 + bits % 8)
    ||| shl64 (v &&& 0xff00) (24 + bits % 8)
    ||| shl64 (v &&& 0xff0000) (8 + bits % 8)
    ||| shr (v &&& 0xff000000) (8 - bits % 8)
    ||| shr (v &&& 0xff00000000) (24 - bits % 8)
    ||| shr (v &&& 0xff0000000000) (40 - bits % 8)
    ||| shr (v &&& 0xff000000000000) 48

-- 8 groups.
unfoldable pub swap_8 : (bits value : ℕ) → ℕ
swap_8 bits v =
    shl64 (v &&& 0xff) (48 + bits % 8)
    ||| shl64 (v &&& 0xff00) (32 + bits % 8)
    ||| shl64 (v &&& 0xff0000) (16 + bits % 8)
    ||| shl64 (v &&& 0xff000000) (bits % 8)
    ||| shr (v &&& 0xff00000000) (16 - bits % 8)
    ||| shr (v &&& 0xff0000000000) (32 - bits % 8)
    ||| shr (v &&& 0xff000000000000) (48 - bits % 8)
    ||| shr (v &&& 0xff00000000000000) 56

-- `case 1` of the switch on `bytes_minus1`.
unfoldable pub order_1 : (bits value : ℕ) → ℕ
order_1 bits v = if ltb 8 bits then swap_2 bits v else v

-- `case 2`
unfoldable pub order_2 : (bits value : ℕ) → ℕ
order_2 bits v = if ltb bits 16 then swap_2 bits v else swap_3 bits v

-- `case 3`
unfoldable pub order_3 : (bits value : ℕ) → ℕ
order_3 bits v = if ltb bits 24 then swap_3 bits v else swap_4 bits v

-- `case 4`
unfoldable pub order_4 : (bits value : ℕ) → ℕ
order_4 bits v = if ltb bits 32 then swap_4 bits v else swap_5 bits v

-- `case 5`
unfoldable pub order_5 : (bits value : ℕ) → ℕ
order_5 bits v = if ltb bits 40 then swap_5 bits v else swap_6 bits v

-- `case 6`
unfoldable pub order_6 : (bits value : ℕ) → ℕ
order_6 bits v = if ltb bits 48 then swap_6 bits v else swap_7 bits v

-- `case 7`
unfoldable pub order_7 : (bits value : ℕ) → ℕ
order_7 bits v = if ltb bits 56 then swap_7 bits v else swap_8 bits v

-- `case 8`, where 64 bits are the only ones left.
unfoldable pub order_8 : (bits value : ℕ) → ℕ
order_8 bits v = if ltb bits 64 then swap_8 bits v else bswap64 v
