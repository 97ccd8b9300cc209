-- ===== src/Iod/Sub/Tests.antt =====
-- Devices that libpoke/ios-dev-sub.c opens on a memory device of three bytes.
use poke.Base.{ℕ, ◌≡◌, refl, arith, Bool, false, true, List, [], ◌∷◌, ◌++◌, some, none, ◌-◌, ◌^◌}
use poke.Iod.{iod_ok, iod_error, iod_eflags, iod_enomem}
use poke.Iod.Mem.{MemDev, mem_dev_if}
use poke.Iod.Sub.{
  BaseIos, SubDev, Handler, ios_dev_sub_open, ios_dev_sub_close, checked, validated,
  ios_inc_sub_dev, ios_dev_sub_handler_normalize,
}
use poke.Pkl.Text.{streq}
use poke.Iod.Sub.Opened.{IsOpened, ios_dev_sub_open-IsOpened, ios_dev_sub_close-open}

abbrev block : MemDev
block = record { pointer = 0xab ∷ 0xcd ∷ 0xef ∷ []; size = 3; flags = 1 }

abbrev base : BaseIos MemDev
base = record { dev = block; zombie_p = false; volatile_p = false; num_sub_devs = 0 }

abbrev range : (offset size : ℕ) → Handler
range offset size = record { base = offset; size = size; name = [] }

abbrev sub : SubDev MemDev
sub = record {
  base_ios = record base { num_sub_devs = 1 };
  base = 1;
  size = 2;
  name = [];
  flags = 1;
}

abbrev no_memory : ℕ → Bool
no_memory n = false

-- The handler of a range has something behind `sub://`.
abbrev handler : List ℕ
handler = b's' ∷ b'u' ∷ b'b' ∷ b':' ∷ b'/' ∷ b'/' ∷ []

normalized :
    (ios_dev_sub_handler_normalize true (handler ++ (b'0' ∷ []))
      ≡ (some (handler ++ (b'0' ∷ [])), iod_ok))
    × (ios_dev_sub_handler_normalize false (handler ++ (b'0' ∷ [])) ≡ (none, iod_enomem))
    × (ios_dev_sub_handler_normalize true handler ≡ (none, iod_ok))
    × (ios_dev_sub_handler_normalize true (b'*' ∷ handler) ≡ (none, iod_ok))
unfolding ios_dev_sub_handler_normalize streq
normalized = (refl, refl, refl, refl)

opens :
    ios_dev_sub_open (mem_dev_if no_memory) true 1 (some (range 1 2)) (some base)
    ≡ (some sub, iod_ok)
unfolding ios_dev_sub_open checked validated ios_inc_sub_dev mem_dev_if
opens = refl

-- The base space cannot be written.
refuses :
    ios_dev_sub_open (mem_dev_if no_memory) true 3 (some (range 1 2)) (some base)
    ≡ (none, iod_eflags)
unfolding ios_dev_sub_open checked validated mem_dev_if
refuses = refl

-- A flag that is none of the two.
other_flag :
    ios_dev_sub_open (mem_dev_if no_memory) true 4 (some (range 1 2)) (some base)
    ≡ (none, iod_eflags)
unfolding ios_dev_sub_open
other_flag = refl

longer :
    ios_dev_sub_open (mem_dev_if no_memory) true 1 (some (range 1 3)) (some base)
    ≡ (none, iod_error)
unfolding ios_dev_sub_open checked validated mem_dev_if
longer = refl

-- A size that makes the end of the range wrap around passes the test.
wraps :
    ios_dev_sub_open (mem_dev_if no_memory) true 1 (some (range 1 (2 ^ 64 - 1))) (some base)
    ≡ (some (record sub { size = 2 ^ 64 - 1 }), iod_ok)
unfolding ios_dev_sub_open checked validated ios_inc_sub_dev mem_dev_if
wraps = refl

ios_dev_sub_open-IsOpened_example : IsOpened (mem_dev_if no_memory) base 1 (range 1 2) sub
ios_dev_sub_open-IsOpened_example =
    ios_dev_sub_open-IsOpened (mem_dev_if no_memory) base true 1 (range 1 2) sub (omega arith) opens

ios_dev_sub_close-open_example : ios_dev_sub_close sub ≡ some (some base)
ios_dev_sub_close-open_example =
    ios_dev_sub_close-open (mem_dev_if no_memory) base true 1 (range 1 2) sub refl opens
