-- ===== src/Ios/OnZero/Tests.antt =====
-- A space on the device of zeros (libpoke/ios-dev-zero.c).
use poke.Base.{◌≡◌, refl, arith, false, true, [], ◌∷◌, some, none}
use poke.Base.Int.{pos, ◌+ℤ◌}
use poke.Iod.{iod_ok}
use poke.Iod.Zero.{ZeroDev, one, zero_dev_if, ios_dev_zero_handler_normalize}
use poke.Pkl.Text.{streq}
use poke.Ios.Word.{lsb}
use poke.Ios.Space.{Space}
use poke.Ios.Range.{Tree}
use poke.Ios.Read.Common.{ok}
use poke.Ios.Read.Api.{read_uint}
use poke.Ios.OnZero.{read_uint_on_zero}

abbrev space : Space ZeroDev
space = record {
  dev = one;
  bias = pos 0;
  ranges = record { count = 0; root = Tree.leaf };
  dirty = λ v. false;
}

normalized :
    (ios_dev_zero_handler_normalize true (b'<' ∷ b'z' ∷ b'e' ∷ b'r' ∷ b'o' ∷ b'>' ∷ [])
      ≡ (some (b'<' ∷ b'z' ∷ b'e' ∷ b'r' ∷ b'o' ∷ b'>' ∷ []), iod_ok))
    × (ios_dev_zero_handler_normalize true (b'<' ∷ b'>' ∷ []) ≡ (none, iod_ok))
unfolding ios_dev_zero_handler_normalize streq
normalized = (refl, refl)

read_uint_on_zero_example : read_uint zero_dev_if space (pos 13) 33 lsb ≡ (ok 0, space)
unfolding ◌+ℤ◌
read_uint_on_zero_example =
    read_uint_on_zero space (pos 13) 13 33 lsb (omega arith) (omega arith) refl
