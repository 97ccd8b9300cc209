-- ===== src/Ios/Sample.antt =====
-- A space on a memory device of three bytes, for the tests. A value is mapped in its first bits.
use poke.Base.{ℕ, zero, suc, ◌≡◌, refl, false, Bool, true, [], ◌∷◌, arith, ◌<◌, ◌^◌}
use poke.Base.Int.{pos}
use poke.Iod.Mem.{MemDev}
use poke.Iod.Mem.Laws.{IsValid, contents}
use poke.Ios.Range.{Tree, Color}
use poke.Ios.Space.{Space}
use poke.Ios.Field.{IsBytes}

abbrev pub three : MemDev
three = record { pointer = 0xab ∷ 0xcd ∷ 0xef ∷ []; size = 3; flags = 3 }

abbrev pub mapped : Tree
mapped =
    Tree.node (record { color = Color.black; low = pos 0; high = pos 8; highest = pos 8; val = 7 })
      Tree.leaf Tree.leaf

-- The device with a bias of four bits.
abbrev pub io : Space MemDev
io = record {
  dev = three;
  bias = pos 4;
  ranges = record { count = 1; root = mapped };
  dirty = λ v. false;
}

-- No memory is left.
abbrev pub no_memory : ℕ → Bool
no_memory n = false

pub no_memory-bounded : (n : ℕ) → no_memory n ≡ true → n < 2 ^ 63
no_memory-bounded n h = ground arith

pub three-IsValid : IsValid three
three-IsValid = record { block = refl; small = omega arith }

pub three-IsBytes : IsBytes (contents three)
three-IsBytes zero = omega arith
three-IsBytes (suc zero) = omega arith
three-IsBytes (suc (suc zero)) = omega arith
three-IsBytes (suc (suc (suc i))) = omega arith
