-- ===== src/Ios/Read/Narrow.antt =====
-- The switch of `ios_read_int_common` (libpoke/ios.c): how the bytes read are put together. `off`
-- is `offset % 8`; the first byte comes with its leading bits cleared.
use poke.Base.{ℕ, ◌+◌, ◌-◌, ◌%◌, ◌==◌, leb, if◌then◌else◌}
use poke.Ios.Word.{Endian, lsb, msb, shl64, shl_int, shr, get_msb, bswap64, ◌|||◌, ◌&&&◌}

-- `case 0` of the switch on `bytes_minus1`.
unfoldable pub read_case_0 : (lastbyte_bits : ℕ) → ℕ → ℕ
read_case_0 lastbyte_bits c0 = shr c0 (8 - lastbyte_bits)

-- `case 1` of the switch on `bytes_minus1`.
unfoldable pub read_case_1 : Endian → (off bits lastbyte_bits : ℕ) → ℕ → ℕ → ℕ
read_case_1 endian off bits lastbyte_bits c0 c1_raw =
    let c1 = get_msb c1_raw lastbyte_bits in
    elim endian [
      | lsb ↦
          if leb bits 8
          then (shl_int c0 lastbyte_bits ||| shr c1 (8 - lastbyte_bits))
          else (if off == 0
              then (shl_int c1 lastbyte_bits ||| c0)
              else (let reg = shl_int c0 (8 + off) ||| shl_int c1 off in
                  shl64 (reg &&& 0xff) (bits % 8) ||| shr reg 8))
      | msb ↦ shl_int c0 lastbyte_bits ||| shr c1 (8 - lastbyte_bits)
    ]

-- `case 2` of the switch on `bytes_minus1`.
unfoldable pub read_case_2 : Endian → (off bits lastbyte_bits : ℕ) → ℕ → ℕ → ℕ → ℕ
read_case_2 endian off bits lastbyte_bits c0 c1 c2_raw =
    let c2 = get_msb c2_raw lastbyte_bits in
    elim endian [
      | lsb ↦
          if off == 0
          then (shl_int c2 (8 + lastbyte_bits) ||| shl_int c1 8 ||| c0)
          else (let reg = shl64 c0 (56 + off) ||| shl64 c1 (48 + off) ||| shl64 c2 (40 + off) in
              bswap64 (
                if leb bits 16
                then shr (reg &&& 0x00ff000000000000) (16 - bits) ||| (reg &&& 0xff00ffffffffffff)
                else shr (reg &&& 0x0000ff0000000000) (24 - bits) ||| (reg &&& 0xffff00ffffffffff)))
      | msb ↦
          shl_int c0 (8 + lastbyte_bits) ||| shl_int c1 lastbyte_bits ||| shr c2 (8 - lastbyte_bits)
    ]

-- `case 3` of the switch on `bytes_minus1`.
unfoldable pub read_case_3 : Endian → (off bits lastbyte_bits : ℕ) → ℕ → ℕ → ℕ → ℕ → ℕ
read_case_3 endian off bits lastbyte_bits c0 c1 c2 c3_raw =
    let c3 = get_msb c3_raw lastbyte_bits in
    elim endian [
      | lsb ↦
          if off == 0
          then (shl_int c3 (16 + lastbyte_bits) ||| shl_int c2 16 ||| shl_int c1 8 ||| c0)
          else (let reg =
                shl64 c0 (56 + off)
                ||| shl64 c1 (48 + off)
                ||| shl64 c2 (40 + off)
                ||| shl64 c3 (32 + off) in
              bswap64 (
                if leb bits 24
                then shr (reg &&& 0x0000ff0000000000) (24 - bits) ||| (reg &&& 0xffff00ffffffffff)
                else shr (reg &&& 0x000000ff00000000) (32 - bits) ||| (reg &&& 0xffffff00ffffffff)))
      | msb ↦
          shl_int c0 (16 + lastbyte_bits)
          ||| shl_int c1 (8 + lastbyte_bits)
          ||| shl_int c2 lastbyte_bits
          ||| shr c3 (8 - lastbyte_bits)
    ]

-- `case 4` of the switch on `bytes_minus1`.
unfoldable pub read_case_4 : Endian → (off bits lastbyte_bits : ℕ) → ℕ → ℕ → ℕ → ℕ → ℕ → ℕ
read_case_4 endian off bits lastbyte_bits c0 c1 c2 c3 c4_raw =
    let c4 = get_msb c4_raw lastbyte_bits in
    elim endian [
      | lsb ↦
          if off == 0
          then (shl64 c4 (24 + lastbyte_bits)
              ||| shl64 c3 24
              ||| shl_int c2 16
              ||| shl_int c1 8
              ||| c0)
          else (let reg =
                shl64 c0 (56 + off)
                ||| shl64 c1 (48 + off)
                ||| shl64 c2 (40 + off)
                ||| shl64 c3 (32 + off)
                ||| shl64 c4 (24 + off) in
              bswap64 (
                if leb bits 32
                then shr (reg &&& 0x000000ff00000000) (32 - bits) ||| (reg &&& 0xffffff00ffffffff)
                else shr (reg &&& 0x00000000ff000000) (40 - bits) ||| (reg &&& 0xffffffff00ffffff)))
      | msb ↦
          shl64 c0 (24 + lastbyte_bits)
          ||| shl64 c1 (16 + lastbyte_bits)
          ||| shl_int c2 (8 + lastbyte_bits)
          ||| shl_int c3 lastbyte_bits
          ||| shr c4 (8 - lastbyte_bits)
    ]
