-- ===== src/Ios/Read/Wide.antt =====
-- The switch of `ios_read_int_common` (libpoke/ios.c): how the bytes read are put together. `off`
-- is `offset % 8`; the first byte comes with its leading bits cleared.
use poke.Base.{ℕ, ◌+◌, ◌-◌, ◌==◌, leb, if◌then◌else◌}
use poke.Ios.Word.{Endian, lsb, msb, shl64, shl_int, shr, get_msb, bswap64, ◌|||◌, ◌&&&◌}

-- `case 5` of the switch on `bytes_minus1`.
unfoldable pub read_case_5 : Endian → (off bits lastbyte_bits : ℕ) → ℕ → ℕ → ℕ → ℕ → ℕ → ℕ → ℕ
read_case_5 endian off bits lastbyte_bits c0 c1 c2 c3 c4 c5_raw =
    let c5 = get_msb c5_raw lastbyte_bits in
    elim endian [
      | lsb ↦
          if off == 0
          then (shl64 c5 (32 + lastbyte_bits)
              ||| shl64 c4 32
              ||| shl64 c3 24
              ||| shl_int c2 16
              ||| shl_int c1 8
              ||| c0)
          else (let reg =
                shl64 c0 (56 + off)
                ||| shl64 c1 (48 + off)
                ||| shl64 c2 (40 + off)
                ||| shl64 c3 (32 + off)
                ||| shl64 c4 (24 + off)
                ||| shl_int c5 (16 + off) in
              bswap64 (
                if leb bits 40
                then shr (reg &&& 0x00000000ff000000) (40 - bits) ||| (reg &&& 0xffffffff00ffffff)
                else shr (reg &&& 0x0000000000ff0000) (48 - bits) ||| (reg &&& 0xffffffffff00ffff)))
      | msb ↦
          shl64 c0 (32 + lastbyte_bits)
          ||| shl64 c1 (24 + lastbyte_bits)
          ||| shl64 c2 (16 + lastbyte_bits)
          ||| shl_int c3 (8 + lastbyte_bits)
          ||| shl_int c4 lastbyte_bits
          ||| shr c5 (8 - lastbyte_bits)
    ]

-- `case 6` of the switch on `bytes_minus1`.
unfoldable pub read_case_6 : Endian → (off bits lastbyte_bits : ℕ) → ℕ → ℕ → ℕ → ℕ → ℕ → ℕ → ℕ → ℕ
read_case_6 endian off bits lastbyte_bits c0 c1 c2 c3 c4 c5 c6_raw =
    let c6 = get_msb c6_raw lastbyte_bits in
    elim endian [
      | lsb ↦
          if off == 0
          then (shl64 c6 (40 + lastbyte_bits)
              ||| shl64 c5 40
              ||| shl64 c4 32
              ||| shl64 c3 24
              ||| shl_int c2 16
              ||| shl_int c1 8
              ||| c0)
          else (let reg =
                shl64 c0 (56 + off)
                ||| shl64 c1 (48 + off)
                ||| shl64 c2 (40 + off)
                ||| shl64 c3 (32 + off)
                ||| shl64 c4 (24 + off)
                ||| shl_int c5 (16 + off)
                ||| shl_int c6 (8 + off) in
              bswap64 (
                if leb bits 48
                then shr (reg &&& 0x0000000000ff0000) (48 - bits) ||| (reg &&& 0xffffffffff00ffff)
                else shr (reg &&& 0x000000000000ff00) (56 - bits) ||| (reg &&& 0xffffffffffff00ff)))
      | msb ↦
          shl64 c0 (40 + lastbyte_bits)
          ||| shl64 c1 (32 + lastbyte_bits)
          ||| shl64 c2 (24 + lastbyte_bits)
          ||| shl64 c3 (16 + lastbyte_bits)
          ||| shl_int c4 (8 + lastbyte_bits)
          ||| shl_int c5 lastbyte_bits
          ||| shr c6 (8 - lastbyte_bits)
    ]

-- `case 7` of the switch on `bytes_minus1`.
unfoldable pub read_case_7 :
    Endian → (off bits lastbyte_bits : ℕ) → ℕ → ℕ → ℕ → ℕ → ℕ → ℕ → ℕ → ℕ → ℕ
read_case_7 endian off bits lastbyte_bits c0 c1 c2 c3 c4 c5 c6 c7_raw =
    let c7 = get_msb c7_raw lastbyte_bits in
    elim endian [
      | lsb ↦
          if off == 0
          then (shl64 c7 (48 + lastbyte_bits)
              ||| shl64 c6 48
              ||| shl64 c5 40
              ||| shl64 c4 32
              ||| shl64 c3 24
              ||| shl_int c2 16
              ||| shl_int c1 8
              ||| c0)
          else (let reg =
                shl64 c0 (56 + off)
                ||| shl64 c1 (48 + off)
                ||| shl64 c2 (40 + off)
                ||| shl64 c3 (32 + off)
                ||| shl64 c4 (24 + off)
                ||| shl_int c5 (16 + off)
                ||| shl_int c6 (8 + off)
                ||| shl_int c7 off in
              bswap64 (
                if leb bits 56
                then shr (reg &&& 0x000000000000ff00) (56 - bits) ||| (reg &&& 0xffffffffffff00ff)
                else shr (reg &&& 0x00000000000000ff) (64 - bits) ||| (reg &&& 0xffffffffffffff00)))
      | msb ↦
          shl64 c0 (48 + lastbyte_bits)
          ||| shl64 c1 (40 + lastbyte_bits)
          ||| shl64 c2 (32 + lastbyte_bits)
          ||| shl64 c3 (24 + lastbyte_bits)
          ||| shl64 c4 (16 + lastbyte_bits)
          ||| shl_int c5 (8 + lastbyte_bits)
          ||| shl_int c6 lastbyte_bits
          ||| shr c7 (8 - lastbyte_bits)
    ]

-- `case 8` of the switch on `bytes_minus1`.
unfoldable pub read_case_8 :
    Endian → (off bits lastbyte_bits : ℕ) → ℕ → ℕ → ℕ → ℕ → ℕ → ℕ → ℕ → ℕ → ℕ → ℕ
read_case_8 endian off bits lastbyte_bits c0 c1 c2 c3 c4 c5 c6 c7 c8_raw =
    let c8 = get_msb c8_raw lastbyte_bits in
    elim endian [
      | lsb ↦
          let reg =
            shl64 c0 (56 + off)
            ||| shl64 c1 (48 + off)
            ||| shl64 c2 (40 + off)
            ||| shl64 c3 (32 + off)
            ||| shl64 c4 (24 + off)
            ||| shl_int c5 (16 + off)
            ||| shl_int c6 (8 + off)
            ||| shl_int c7 off
            ||| shr c8 (8 - off) in
          bswap64 (shr (reg &&& 0x00000000000000ff) (64 - bits) ||| (reg &&& 0xffffffffffffff00))
      | msb ↦
          shl64 c0 (56 + lastbyte_bits)
          ||| shl64 c1 (48 + lastbyte_bits)
          ||| shl64 c2 (40 + lastbyte_bits)
          ||| shl64 c3 (32 + lastbyte_bits)
          ||| shl64 c4 (24 + lastbyte_bits)
          ||| shl64 c5 (16 + lastbyte_bits)
          ||| shl_int c6 (8 + lastbyte_bits)
          ||| shl_int c7 lastbyte_bits
          ||| shr c8 (8 - lastbyte_bits)
    ]
