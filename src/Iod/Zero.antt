-- ===== src/Iod/Zero.antt =====
-- libpoke/ios-dev-zero.c: the device that reads as zeros and ignores what is written.
use poke.Base.{
  ℕ, ◌-◌, ◌^◌, Bool, if◌then◌else◌, List, [], ◌∷◌, Option, none, some, replicate, bit_or,
}
use poke.Iod.{DevIf, iod_ok, ios_f_read, ios_f_write}
use poke.Pkl.Text.{streq}

-- The device keeps no state: `(void*)1` is the only one.
pub data ZeroDev : Type 0 where
  one : ZeroDev

abbrev zero_handler : List ℕ
zero_handler = b'<' ∷ b'z' ∷ b'e' ∷ b'r' ∷ b'o' ∷ b'>' ∷ []

-- As for the memory device, the failure of `strdup` is stored and then overwritten by IOD_OK.
unfoldable pub ios_dev_zero_handler_normalize : (copied : Bool) → List ℕ → Option (List ℕ) × ℕ
unfolding streq
ios_dev_zero_handler_normalize copied handler =
    if streq handler zero_handler
    then (if copied then (some handler, iod_ok) else (none, iod_ok))
    else (none, iod_ok)

abbrev pub ios_dev_zero_open : Option ZeroDev × ℕ
ios_dev_zero_open = (some one, iod_ok)

abbrev pub ios_dev_zero_close : ZeroDev → ℕ
ios_dev_zero_close dev = iod_ok

unfoldable pub ios_dev_zero_pread : ZeroDev → ℕ → ℕ → ℕ × List ℕ × ZeroDev
ios_dev_zero_pread dev count offset = (iod_ok, replicate count 0, dev)

unfoldable pub ios_dev_zero_pwrite : ZeroDev → List ℕ → ℕ → ℕ × ZeroDev
ios_dev_zero_pwrite dev buf offset = (iod_ok, dev)

-- `ios_dev_zero`; the size is that of the cast of -1.
unfoldable pub zero_dev_if : DevIf ZeroDev
zero_dev_if = record {
  pread = ios_dev_zero_pread;
  pwrite = ios_dev_zero_pwrite;
  get_flags = λ dev. bit_or ios_f_read ios_f_write;
  size = λ dev. 2 ^ 64 - 1;
}
