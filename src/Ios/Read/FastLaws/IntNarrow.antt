-- ===== src/Ios/Read/FastLaws/IntNarrow.antt =====
-- The byte-aligned branches of `ios_read_int` (libpoke/ios.c): the bytes joined are the integer.
use poke.Base.{ℕ, ◌+◌, ◌*◌, ◌≡◌, ◌∙◌, arith, List}
use poke.Ios.Word.{Endian, lsb, msb, shl64-exact, shl_int-exact}
use poke.Ios.Field.{IsBytes, field_lsb, int_at, field-groups}
use poke.Ios.Read.Fast
use poke.Ios.Read.FastLaws.Join
use poke.Ios.Read.FastLaws.Join.{join_2, join_3, join_4, join_5, join_6, join_7, join_8, HoldsBytes}

module _ (mem : ℕ → ℕ) (bytes : IsBytes mem) (a : ℕ) (c : List ℕ) where
  pub int_16_lem :
      (endian : Endian) → HoldsBytes mem a c 2 → Fast.int_16 endian c ≡ int_at mem endian (8 * a) 16
  unfolding Fast.int_16 int_at field_lsb
  int_16_lem msb held =
      rw
        (
          held 0 (omega arith),
          held 1 (omega arith),
          field-groups mem (8 * a) 1,
          Join.byte_group mem bytes a 0,
          Join.byte_group mem bytes a 1,
        )
        (join_2 (mem (a + 0)) (mem (a + 1)) (bytes (a + 0)) (bytes (a + 1))
          (shl64-exact 8 (mem (a + 0)) 8 (bytes (a + 0)) (omega arith)))
  int_16_lem lsb held =
      rw
        (
          held 0 (omega arith),
          held 1 (omega arith),
          Join.byte_group mem bytes a 0,
          Join.byte_group mem bytes a 1,
        )
        (join_2 (mem (a + 1)) (mem (a + 0)) (bytes (a + 1)) (bytes (a + 0))
            (shl64-exact 8 (mem (a + 1)) 8 (bytes (a + 1)) (omega arith))
          ∙ omega arith)

  pub int_24_lem :
      (endian : Endian) → HoldsBytes mem a c 3 → Fast.int_24 endian c ≡ int_at mem endian (8 * a) 24
  unfolding Fast.int_24 int_at field_lsb
  int_24_lem msb held =
      rw
        (
          held 0 (omega arith),
          held 1 (omega arith),
          held 2 (omega arith),
          field-groups mem (8 * a) 2,
          Join.byte_group mem bytes a 0,
          Join.byte_group mem bytes a 1,
          Join.byte_group mem bytes a 2,
        )
        (join_3 (mem (a + 0)) (mem (a + 1)) (mem (a + 2)) (bytes (a + 0)) (bytes (a + 1))
          (bytes (a + 2)) (shl64-exact 8 (mem (a + 0)) 16 (bytes (a + 0)) (omega arith))
          (shl64-exact 8 (mem (a + 1)) 8 (bytes (a + 1)) (omega arith)))
  int_24_lem lsb held =
      rw
        (
          held 0 (omega arith),
          held 1 (omega arith),
          held 2 (omega arith),
          Join.byte_group mem bytes a 0,
          Join.byte_group mem bytes a 1,
          Join.byte_group mem bytes a 2,
        )
        (join_3 (mem (a + 2)) (mem (a + 1)) (mem (a + 0)) (bytes (a + 2)) (bytes (a + 1))
            (bytes (a + 0)) (shl64-exact 8 (mem (a + 2)) 16 (bytes (a + 2)) (omega arith))
            (shl64-exact 8 (mem (a + 1)) 8 (bytes (a + 1)) (omega arith))
          ∙ omega arith)

  pub int_32_lem :
      (endian : Endian) → HoldsBytes mem a c 4 → Fast.int_32 endian c ≡ int_at mem endian (8 * a) 32
  unfolding Fast.int_32 int_at field_lsb
  int_32_lem msb held =
      rw
        (
          held 0 (omega arith),
          held 1 (omega arith),
          held 2 (omega arith),
          held 3 (omega arith),
          field-groups mem (8 * a) 3,
          Join.byte_group mem bytes a 0,
          Join.byte_group mem bytes a 1,
          Join.byte_group mem bytes a 2,
          Join.byte_group mem bytes a 3,
        )
        (join_4 (mem (a + 0)) (mem (a + 1)) (mem (a + 2)) (mem (a + 3)) (bytes (a + 0))
          (bytes (a + 1)) (bytes (a + 2)) (bytes (a + 3))
          (shl64-exact 8 (mem (a + 0)) 24 (bytes (a + 0)) (omega arith))
          (shl64-exact 8 (mem (a + 1)) 16 (bytes (a + 1)) (omega arith))
          (shl64-exact 8 (mem (a + 2)) 8 (bytes (a + 2)) (omega arith)))
  int_32_lem lsb held =
      rw
        (
          held 0 (omega arith),
          held 1 (omega arith),
          held 2 (omega arith),
          held 3 (omega arith),
          Join.byte_group mem bytes a 0,
          Join.byte_group mem bytes a 1,
          Join.byte_group mem bytes a 2,
          Join.byte_group mem bytes a 3,
        )
        (join_4 (mem (a + 3)) (mem (a + 2)) (mem (a + 1)) (mem (a + 0)) (bytes (a + 3))
            (bytes (a + 2)) (bytes (a + 1)) (bytes (a + 0))
            (shl64-exact 8 (mem (a + 3)) 24 (bytes (a + 3)) (omega arith))
            (shl64-exact 8 (mem (a + 2)) 16 (bytes (a + 2)) (omega arith))
            (shl64-exact 8 (mem (a + 1)) 8 (bytes (a + 1)) (omega arith))
          ∙ omega arith)

  pub int_40_lem :
      (endian : Endian) → HoldsBytes mem a c 5 → Fast.int_40 endian c ≡ int_at mem endian (8 * a) 40
  unfolding Fast.int_40 int_at field_lsb
  int_40_lem msb held =
      rw
        (
          held 0 (omega arith),
          held 1 (omega arith),
          held 2 (omega arith),
          held 3 (omega arith),
          held 4 (omega arith),
          field-groups mem (8 * a) 4,
          Join.byte_group mem bytes a 0,
          Join.byte_group mem bytes a 1,
          Join.byte_group mem bytes a 2,
          Join.byte_group mem bytes a 3,
          Join.byte_group mem bytes a 4,
        )
        (join_5 (mem (a + 0)) (mem (a + 1)) (mem (a + 2)) (mem (a + 3)) (mem (a + 4))
          (bytes (a + 0)) (bytes (a + 1)) (bytes (a + 2)) (bytes (a + 3)) (bytes (a + 4))
          (shl64-exact 8 (mem (a + 0)) 32 (bytes (a + 0)) (omega arith))
          (shl64-exact 8 (mem (a + 1)) 24 (bytes (a + 1)) (omega arith))
          (shl_int-exact 8 (mem (a + 2)) 16 (bytes (a + 2)) (omega arith))
          (shl_int-exact 8 (mem (a + 3)) 8 (bytes (a + 3)) (omega arith)))
  int_40_lem lsb held =
      rw
        (
          held 0 (omega arith),
          held 1 (omega arith),
          held 2 (omega arith),
          held 3 (omega arith),
          held 4 (omega arith),
          Join.byte_group mem bytes a 0,
          Join.byte_group mem bytes a 1,
          Join.byte_group mem bytes a 2,
          Join.byte_group mem bytes a 3,
          Join.byte_group mem bytes a 4,
        )
        (join_5 (mem (a + 4)) (mem (a + 3)) (mem (a + 2)) (mem (a + 1)) (mem (a + 0))
            (bytes (a + 4)) (bytes (a + 3)) (bytes (a + 2)) (bytes (a + 1)) (bytes (a + 0))
            (shl64-exact 8 (mem (a + 4)) 32 (bytes (a + 4)) (omega arith))
            (shl64-exact 8 (mem (a + 3)) 24 (bytes (a + 3)) (omega arith))
            (shl_int-exact 8 (mem (a + 2)) 16 (bytes (a + 2)) (omega arith))
            (shl_int-exact 8 (mem (a + 1)) 8 (bytes (a + 1)) (omega arith))
          ∙ omega arith)
