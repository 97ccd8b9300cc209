-- ===== src/Ios/Read/FastLaws/IntWide.antt =====
-- The byte-aligned branches of `ios_read_int` (libpoke/ios.c): the bytes joined are the integer.
use poke.Base.{ℕ, ◌+◌, ◌*◌, ◌≡◌, ◌∙◌, arith, List}
use poke.Ios.Word.{Endian, lsb, msb, shl64-exact, shl_int-exact}
use poke.Ios.Field.{IsBytes, field_lsb, int_at, field-groups}
use poke.Ios.Read.Fast
use poke.Ios.Read.FastLaws.Join
use poke.Ios.Read.FastLaws.Join.{join_2, join_3, join_4, join_5, join_6, join_7, join_8, HoldsBytes}

module _ (mem : ℕ → ℕ) (bytes : IsBytes mem) (a : ℕ) (c : List ℕ) where
  pub int_48_lem :
      (endian : Endian) → HoldsBytes mem a c 6 → Fast.int_48 endian c ≡ int_at mem endian (8 * a) 48
  unfolding Fast.int_48 int_at field_lsb
  int_48_lem msb held =
      rw
        (
          held 0 (omega arith),
          held 1 (omega arith),
          held 2 (omega arith),
          held 3 (omega arith),
          held 4 (omega arith),
          held 5 (omega arith),
          field-groups mem (8 * a) 5,
          Join.byte_group mem bytes a 0,
          Join.byte_group mem bytes a 1,
          Join.byte_group mem bytes a 2,
          Join.byte_group mem bytes a 3,
          Join.byte_group mem bytes a 4,
          Join.byte_group mem bytes a 5,
        )
        (join_6 (mem (a + 0)) (mem (a + 1)) (mem (a + 2)) (mem (a + 3)) (mem (a + 4)) (mem (a + 5))
          (bytes (a + 0)) (bytes (a + 1)) (bytes (a + 2)) (bytes (a + 3)) (bytes (a + 4))
          (bytes (a + 5)) (shl64-exact 8 (mem (a + 0)) 40 (bytes (a + 0)) (omega arith))
          (shl64-exact 8 (mem (a + 1)) 32 (bytes (a + 1)) (omega arith))
          (shl64-exact 8 (mem (a + 2)) 24 (bytes (a + 2)) (omega arith))
          (shl_int-exact 8 (mem (a + 3)) 16 (bytes (a + 3)) (omega arith))
          (shl_int-exact 8 (mem (a + 4)) 8 (bytes (a + 4)) (omega arith)))
  int_48_lem lsb held =
      rw
        (
          held 0 (omega arith),
          held 1 (omega arith),
          held 2 (omega arith),
          held 3 (omega arith),
          held 4 (omega arith),
          held 5 (omega arith),
          Join.byte_group mem bytes a 0,
          Join.byte_group mem bytes a 1,
          Join.byte_group mem bytes a 2,
          Join.byte_group mem bytes a 3,
          Join.byte_group mem bytes a 4,
          Join.byte_group mem bytes a 5,
        )
        (join_6 (mem (a + 5)) (mem (a + 4)) (mem (a + 3)) (mem (a + 2)) (mem (a + 1)) (mem (a + 0))
            (bytes (a + 5)) (bytes (a + 4)) (bytes (a + 3)) (bytes (a + 2)) (bytes (a + 1))
            (bytes (a + 0)) (shl64-exact 8 (mem (a + 5)) 40 (bytes (a + 5)) (omega arith))
            (shl64-exact 8 (mem (a + 4)) 32 (bytes (a + 4)) (omega arith))
            (shl64-exact 8 (mem (a + 3)) 24 (bytes (a + 3)) (omega arith))
            (shl_int-exact 8 (mem (a + 2)) 16 (bytes (a + 2)) (omega arith))
            (shl_int-exact 8 (mem (a + 1)) 8 (bytes (a + 1)) (omega arith))
          ∙ omega arith)

  pub int_56_lem :
      (endian : Endian) → HoldsBytes mem a c 7 → Fast.int_56 endian c ≡ int_at mem endian (8 * a) 56
  unfolding Fast.int_56 int_at field_lsb
  int_56_lem msb held =
      rw
        (
          held 0 (omega arith),
          held 1 (omega arith),
          held 2 (omega arith),
          held 3 (omega arith),
          held 4 (omega arith),
          held 5 (omega arith),
          held 6 (omega arith),
          field-groups mem (8 * a) 6,
          Join.byte_group mem bytes a 0,
          Join.byte_group mem bytes a 1,
          Join.byte_group mem bytes a 2,
          Join.byte_group mem bytes a 3,
          Join.byte_group mem bytes a 4,
          Join.byte_group mem bytes a 5,
          Join.byte_group mem bytes a 6,
        )
        (join_7 (mem (a + 0)) (mem (a + 1)) (mem (a + 2)) (mem (a + 3)) (mem (a + 4)) (mem (a + 5))
          (mem (a + 6)) (bytes (a + 0)) (bytes (a + 1)) (bytes (a + 2)) (bytes (a + 3))
          (bytes (a + 4)) (bytes (a + 5)) (bytes (a + 6))
          (shl64-exact 8 (mem (a + 0)) 48 (bytes (a + 0)) (omega arith))
          (shl64-exact 8 (mem (a + 1)) 40 (bytes (a + 1)) (omega arith))
          (shl64-exact 8 (mem (a + 2)) 32 (bytes (a + 2)) (omega arith))
          (shl64-exact 8 (mem (a + 3)) 24 (bytes (a + 3)) (omega arith))
          (shl_int-exact 8 (mem (a + 4)) 16 (bytes (a + 4)) (omega arith))
          (shl_int-exact 8 (mem (a + 5)) 8 (bytes (a + 5)) (omega arith)))
  int_56_lem lsb held =
      rw
        (
          held 0 (omega arith),
          held 1 (omega arith),
          held 2 (omega arith),
          held 3 (omega arith),
          held 4 (omega arith),
          held 5 (omega arith),
          held 6 (omega arith),
          Join.byte_group mem bytes a 0,
          Join.byte_group mem bytes a 1,
          Join.byte_group mem bytes a 2,
          Join.byte_group mem bytes a 3,
          Join.byte_group mem bytes a 4,
          Join.byte_group mem bytes a 5,
          Join.byte_group mem bytes a 6,
        )
        (join_7 (mem (a + 6)) (mem (a + 5)) (mem (a + 4)) (mem (a + 3)) (mem (a + 2)) (mem (a + 1))
            (mem (a + 0)) (bytes (a + 6)) (bytes (a + 5)) (bytes (a + 4)) (bytes (a + 3))
            (bytes (a + 2)) (bytes (a + 1)) (bytes (a + 0))
            (shl64-exact 8 (mem (a + 6)) 48 (bytes (a + 6)) (omega arith))
            (shl64-exact 8 (mem (a + 5)) 40 (bytes (a + 5)) (omega arith))
            (shl64-exact 8 (mem (a + 4)) 32 (bytes (a + 4)) (omega arith))
            (shl64-exact 8 (mem (a + 3)) 24 (bytes (a + 3)) (omega arith))
            (shl_int-exact 8 (mem (a + 2)) 16 (bytes (a + 2)) (omega arith))
            (shl_int-exact 8 (mem (a + 1)) 8 (bytes (a + 1)) (omega arith))
          ∙ omega arith)

  pub int_64_lem :
      (endian : Endian) → HoldsBytes mem a c 8 → Fast.int_64 endian c ≡ int_at mem endian (8 * a) 64
  unfolding Fast.int_64 int_at field_lsb
  int_64_lem msb held =
      rw
        (
          held 0 (omega arith),
          held 1 (omega arith),
          held 2 (omega arith),
          held 3 (omega arith),
          held 4 (omega arith),
          held 5 (omega arith),
          held 6 (omega arith),
          held 7 (omega arith),
          field-groups mem (8 * a) 7,
          Join.byte_group mem bytes a 0,
          Join.byte_group mem bytes a 1,
          Join.byte_group mem bytes a 2,
          Join.byte_group mem bytes a 3,
          Join.byte_group mem bytes a 4,
          Join.byte_group mem bytes a 5,
          Join.byte_group mem bytes a 6,
          Join.byte_group mem bytes a 7,
        )
        (join_8 (mem (a + 0)) (mem (a + 1)) (mem (a + 2)) (mem (a + 3)) (mem (a + 4)) (mem (a + 5))
          (mem (a + 6)) (mem (a + 7)) (bytes (a + 0)) (bytes (a + 1)) (bytes (a + 2))
          (bytes (a + 3)) (bytes (a + 4)) (bytes (a + 5)) (bytes (a + 6)) (bytes (a + 7))
          (shl64-exact 8 (mem (a + 0)) 56 (bytes (a + 0)) (omega arith))
          (shl64-exact 8 (mem (a + 1)) 48 (bytes (a + 1)) (omega arith))
          (shl64-exact 8 (mem (a + 2)) 40 (bytes (a + 2)) (omega arith))
          (shl64-exact 8 (mem (a + 3)) 32 (bytes (a + 3)) (omega arith))
          (shl64-exact 8 (mem (a + 4)) 24 (bytes (a + 4)) (omega arith))
          (shl_int-exact 8 (mem (a + 5)) 16 (bytes (a + 5)) (omega arith))
          (shl_int-exact 8 (mem (a + 6)) 8 (bytes (a + 6)) (omega arith)))
  int_64_lem lsb held =
      rw
        (
          held 0 (omega arith),
          held 1 (omega arith),
          held 2 (omega arith),
          held 3 (omega arith),
          held 4 (omega arith),
          held 5 (omega arith),
          held 6 (omega arith),
          held 7 (omega arith),
          Join.byte_group mem bytes a 0,
          Join.byte_group mem bytes a 1,
          Join.byte_group mem bytes a 2,
          Join.byte_group mem bytes a 3,
          Join.byte_group mem bytes a 4,
          Join.byte_group mem bytes a 5,
          Join.byte_group mem bytes a 6,
          Join.byte_group mem bytes a 7,
        )
        (join_8 (mem (a + 7)) (mem (a + 6)) (mem (a + 5)) (mem (a + 4)) (mem (a + 3)) (mem (a + 2))
            (mem (a + 1)) (mem (a + 0)) (bytes (a + 7)) (bytes (a + 6)) (bytes (a + 5))
            (bytes (a + 4)) (bytes (a + 3)) (bytes (a + 2)) (bytes (a + 1)) (bytes (a + 0))
            (shl64-exact 8 (mem (a + 7)) 56 (bytes (a + 7)) (omega arith))
            (shl64-exact 8 (mem (a + 6)) 48 (bytes (a + 6)) (omega arith))
            (shl64-exact 8 (mem (a + 5)) 40 (bytes (a + 5)) (omega arith))
            (shl64-exact 8 (mem (a + 4)) 32 (bytes (a + 4)) (omega arith))
            (shl64-exact 8 (mem (a + 3)) 24 (bytes (a + 3)) (omega arith))
            (shl_int-exact 8 (mem (a + 2)) 16 (bytes (a + 2)) (omega arith))
            (shl_int-exact 8 (mem (a + 1)) 8 (bytes (a + 1)) (omega arith))
          ∙ omega arith)
