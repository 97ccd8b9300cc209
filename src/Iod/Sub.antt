-- ===== src/Iod/Sub.antt =====
-- libpoke/ios-dev-sub.c: the device for a range of another space, its base space; and the counting
-- of such devices in libpoke/ios.c.
mod Opened
mod Tests
use mathlib.Core.Bool.{not}
use poke.Base.{
  ℕ, ◌+◌, ◌-◌, ◌^◌, Bool, ltb, leb, ◌==◌, ◌&&◌, ◌||◌, if◌then◌else◌, List, [], ◌∷◌, length, take,
  Option, none, some, bit_and, bit_or,
}
use poke.Iod.{
  DevIf, iod_ok, iod_error, iod_eflags, iod_enomem, iod_eof, ios_f_read, ios_f_write, has_flag,
}
use poke.Iod.Mem.{add64}
use poke.Pkl.Text.{streq}

-- The part of `struct ios` that the device uses: the device of the base space, whether the space is
-- closed and whether it is volatile, and how many devices stand on it.
pub record BaseIos (D : Type 0) : Type 0 where
  pub dev : D
  pub zombie_p : Bool
  pub volatile_p : Bool
  pub num_sub_devs : ℕ

-- `struct ios_dev_sub`
pub record SubDev (D : Type 0) : Type 0 where
  pub base_ios : BaseIos D
  pub base : ℕ
  pub size : ℕ
  pub name : List ℕ
  pub flags : ℕ

-- The fields of `sub://IOS/BASE/SIZE/NAME`, as strtol and strtoull read them.
pub record Handler : Type 0 where
  pub base : ℕ
  pub size : ℕ
  pub name : List ℕ

abbrev prefix : List ℕ
prefix = b's' ∷ b'u' ∷ b'b' ∷ b':' ∷ b'/' ∷ b'/' ∷ []

-- The result is the new handler, NULL as `none`, and `*error`. `copied` tells whether `strdup` had
-- memory.
unfoldable pub ios_dev_sub_handler_normalize : (copied : Bool) → List ℕ → Option (List ℕ) × ℕ
unfolding streq
ios_dev_sub_handler_normalize copied handler =
    if ltb 6 (length handler) && streq (take 6 handler) prefix
    then (if copied then (some handler, iod_ok) else (none, iod_enomem))
    else (none, iod_ok)

-- `flags & ~(IOS_F_READ|IOS_F_WRITE)`, as a condition.
abbrev pub other_flags : ℕ → Bool
other_flags flags = not (bit_and flags (2 ^ 64 - 1 - bit_or ios_f_read ios_f_write) == 0)

-- `(sub->flags & flag) && !(iflags & flag)`
abbrev pub contradicts : ℕ → ℕ → ℕ → Bool
contradicts flags iflags flag = has_flag flags flag && not (has_flag iflags flag)

module _ {D : Type 0} where
  unfoldable pub ios_inc_sub_dev : BaseIos D → BaseIos D
  ios_inc_sub_dev ios = record ios { num_sub_devs = ios.num_sub_devs + 1 }

  -- `none` is the failed assertion; a space that is freed is `some none`.
  unfoldable pub ios_dec_sub_dev : BaseIos D → Option (Option (BaseIos D))
  ios_dec_sub_dev ios =
      let left = ios.num_sub_devs - 1 in
      if ios.num_sub_devs == 0
      then none
      else if ios.zombie_p && (left == 0)
      then some none
      else some (some (record ios { num_sub_devs = left }))

  -- What is left of the base space.
  unfoldable pub ios_dev_sub_close : SubDev D → Option (Option (BaseIos D))
  unfolding ios_dec_sub_dev
  ios_dev_sub_close sub = ios_dec_sub_dev sub.base_ios

  -- The device when its base space has become `ios`.
  abbrev pub with_dev : SubDev D → D → SubDev D
  with_dev sub dev = record sub { base_ios = record sub.base_ios { dev = dev } }

module _ {D : Type 0} (dev_if : DevIf D) where
  -- The validation in `ios_dev_sub_open`, once the base space is found. `size` is that of its device.
  unfoldable pub validated :
      BaseIos D → (explicit_flags_p : Bool) → (flags : ℕ) → Handler → Option (SubDev D) × ℕ
  unfolding ios_inc_sub_dev
  validated ios explicit_flags_p flags handler =
      let base_ios_size = dev_if.size ios.dev in
      let iflags = dev_if.get_flags ios.dev in
      if leb base_ios_size handler.base || ltb base_ios_size (add64 handler.base handler.size)
      then (none, iod_error)
      else if explicit_flags_p
          && (contradicts flags iflags ios_f_read || contradicts flags iflags ios_f_write)
      then (none, iod_eflags)
      else (
        some (record {
          base_ios = ios_inc_sub_dev ios;
          base = handler.base;
          size = handler.size;
          name = handler.name;
          flags = flags;
        }),
        iod_ok,
      )

  -- The rest of it, once the flags are seen to.
  unfoldable pub checked :
      (explicit_flags_p : Bool) → ℕ → Option Handler → Option (BaseIos D) → Option (SubDev D) × ℕ
  checked explicit_flags_p flags none base_ios = (none, iod_error)
  checked explicit_flags_p flags (some handler) none = (none, iod_error)
  checked explicit_flags_p flags (some handler) (some ios) =
      validated ios explicit_flags_p flags handler

  -- `allocated` tells whether there is memory for the device. `handler` is `none` where a number is
  -- not followed by a slash; `base_ios` is what `ios_search_by_id` finds.
  unfoldable pub ios_dev_sub_open :
      (allocated : Bool) → ℕ → Option Handler → Option (BaseIos D) → Option (SubDev D) × ℕ
  ios_dev_sub_open allocated flags handler base_ios =
      let explicit_flags_p = not (flags == 0) in
      let sub_flags = if explicit_flags_p then flags else bit_or ios_f_read ios_f_write in
      if allocated
      then (if other_flags sub_flags
          then (none, iod_eflags)
          else checked explicit_flags_p sub_flags handler base_ios)
      else (none, iod_enomem)

  unfoldable pub ios_dev_sub_pread : SubDev D → ℕ → ℕ → ℕ × List ℕ × SubDev D
  ios_dev_sub_pread sub count offset =
      let (ret, buf, dev') = dev_if.pread sub.base_ios.dev count (add64 sub.base offset) in
      if sub.base_ios.zombie_p || not (has_flag sub.flags ios_f_read)
      then (iod_error, [], sub)
      else if leb sub.size offset
      then (iod_eof, [], sub)
      else (ret, buf, with_dev sub dev')

  unfoldable pub ios_dev_sub_pwrite : SubDev D → List ℕ → ℕ → ℕ × SubDev D
  ios_dev_sub_pwrite sub buf offset =
      let (ret, dev') = dev_if.pwrite sub.base_ios.dev buf (add64 sub.base offset) in
      if sub.base_ios.zombie_p || not (has_flag sub.flags ios_f_write)
      then (iod_error, sub)
      else if leb sub.size offset
      then (iod_eof, sub)
      else (ret, with_dev sub dev')

  -- `ios_dev_sub`
  unfoldable pub sub_dev_if : DevIf (SubDev D)
  sub_dev_if = record {
    pread = ios_dev_sub_pread;
    pwrite = ios_dev_sub_pwrite;
    get_flags = λ sub. sub.flags;
    size = λ sub. sub.size;
  }
