-- ===== src/Iod/Sub/Opened.antt =====
-- The devices that `ios_dev_sub_open` (libpoke/ios-dev-sub.c) opens.
use mathlib.Core.Bool.{not}
use poke.Base.{
  ℕ, ◌+◌, ◌-◌, ◌^◌, ◌≤◌, ◌<◌, ◌≡◌, ◌≢◌, refl, sym, ◌∙◌, ap, arith, Bool, true, false, subst, ltb,
  leb, ◌==◌, ◌&&◌, ◌||◌, if◌then◌else◌, Option, none, some, if_false,
}
use poke.Iod.{DevIf, iod_ok, iod_error, iod_eflags, iod_enomem, ios_f_read, ios_f_write}
use poke.Iod.Mem.{add64}
use poke.Iod.Sub.{
  BaseIos, SubDev, Handler, contradicts, validated, checked, ios_inc_sub_dev, ios_dec_sub_dev,
  ios_dev_sub_open, ios_dev_sub_close,
}

or_false : (a b : Bool) → (a || b) ≡ false → (a ≡ false) × (b ≡ false)
or_false false false h = (refl, refl)
or_false false true h = (refl, h)
or_false true b h = (h, ground arith)

and_false : (a b : Bool) → (a && b) ≡ false → a ≡ true → b ≡ false
and_false a b h e = ground arith

module _ {D : Type 0} where
  -- NULL with a status, for a test that fails.
  abbrev refused : ℕ → Option (SubDev D) × ℕ
  refused error = (none, error)

  abbrev device_or : SubDev D → Option (SubDev D) × ℕ → SubDev D
  device_or s (none, error) = s
  device_or s (some t, error) = t

  abbrev is_null : Option (SubDev D) × ℕ → Bool
  is_null (none, error) = true
  is_null (some t, error) = false

  null : {A : Type 0} (error status : ℕ) (t : SubDev D) → refused error ≡ (some t, status) → A
  null error status t h =
      absurd (let e : true ≡ false = ap is_null h in let no : true ≢ false = ground arith in no e)

  -- What opens has passed both tests.
  accepted :
      (outside contradicted : Bool) (s t : SubDev D)
      → (if outside
          then refused iod_error
          else if contradicted
          then refused iod_eflags
          else (some s, iod_ok))
        ≡ (some t, iod_ok)
      → (outside ≡ false) × (contradicted ≡ false) × (s ≡ t)
  accepted true contradicted s t h = null iod_error iod_ok t h
  accepted false true s t h = null iod_eflags iod_ok t h
  accepted false false s t h = (refl, refl, ap (device_or s) h)

  passed :
      (allocated other : Bool) (r : Option (SubDev D) × ℕ) (t : SubDev D)
      → (if allocated then (if other then refused iod_eflags else r) else refused iod_enomem)
        ≡ (some t, iod_ok)
      → r ≡ (some t, iod_ok)
  passed true true r t h = null iod_eflags iod_ok t h
  passed true false r t h = h
  passed false other r t h = null iod_enomem iod_ok t h

  dec-inc_sub_dev :
      (ios : BaseIos D)
      → ios.zombie_p ≡ false
      → ios_dec_sub_dev (ios_inc_sub_dev ios) ≡ some (some ios)
  unfolding ios_dec_sub_dev ios_inc_sub_dev
  dec-inc_sub_dev ios there =
      let some_devs : (ios.num_sub_devs + 1 == 0) ≡ false = ground arith in
      let kept : (ios.zombie_p && (ios.num_sub_devs + 1 - 1 == 0)) ≡ false = ground arith in
      if_false _ _ some_devs
      ∙ if_false _ _ kept
      ∙ ap (λ n. some (some (record ios { num_sub_devs = n })))
          (let e : ios.num_sub_devs + 1 - 1 ≡ ios.num_sub_devs = omega arith in e)

module _ {D : Type 0} (dev_if : DevIf D) (ios : BaseIos D) where
  -- A device on the space, in the range of its device and with flags that do not contradict it.
  pub record IsOpened (flags : ℕ) (handler : Handler) (sub : SubDev D) : Type 0 where
    pub inside : sub.base + sub.size ≤ dev_if.size ios.dev
    pub start : sub.base < dev_if.size ios.dev
    pub base_ios : sub.base_ios ≡ ios_inc_sub_dev ios
    pub readable : flags ≢ 0 → contradicts sub.flags (dev_if.get_flags ios.dev) ios_f_read ≡ false
    pub writable : flags ≢ 0 → contradicts sub.flags (dev_if.get_flags ios.dev) ios_f_write ≡ false
    pub same_base : sub.base ≡ handler.base
    pub same_size : sub.size ≡ handler.size

  validated-IsOpened :
      (flags sub_flags : ℕ) (handler : Handler) (sub : SubDev D)
      → handler.base + handler.size < 2 ^ 64
      → validated dev_if ios (not (flags == 0)) sub_flags handler ≡ (some sub, iod_ok)
      → IsOpened flags handler sub
  unfolding validated ios_inc_sub_dev
  validated-IsOpened flags sub_flags handler sub small opened =
      let size = dev_if.size ios.dev in
      let iflags = dev_if.get_flags ios.dev in
      let (outside, contradicted, same) =
        accepted (leb size handler.base || ltb size (add64 handler.base handler.size))
          (not (flags == 0)
            && (contradicts sub_flags iflags ios_f_read
                || contradicts sub_flags iflags ios_f_write))
          (record {
            base_ios = ios_inc_sub_dev ios;
            base = handler.base;
            size = handler.size;
            name = handler.name;
            flags = sub_flags;
          })
          sub opened in
      let (starts, ends) = or_false (leb size handler.base) _ outside in
      let start : handler.base < size = ground arith in
      let inside : handler.base + handler.size ≤ size = ground arith in
      let allowed : flags ≢ 0
          → (contradicts sub_flags iflags ios_f_read || contradicts sub_flags iflags ios_f_write)
            ≡ false =
        λ some_flags.
          and_false _ _ contradicted (let e : not (flags == 0) ≡ true = ground arith in e) in
      subst (IsOpened flags handler) same (record {
        inside = inside;
        start = start;
        base_ios = refl;
        readable = λ some_flags. (or_false _ _ (allowed some_flags)).0;
        writable = λ some_flags. (or_false _ _ (allowed some_flags)).1;
        same_base = refl;
        same_size = refl;
      })

  -- A device that opens, where the end of its range does not wrap around, lies inside the device of
  -- the base space and starts below its end, has the range that the handler asks for, has no explicit
  -- flag that the base space lacks, and is counted there.
  pub ios_dev_sub_open-IsOpened :
      (allocated : Bool) (flags : ℕ) (handler : Handler) (sub : SubDev D)
      → handler.base + handler.size < 2 ^ 64
      → ios_dev_sub_open dev_if allocated flags (some handler) (some ios) ≡ (some sub, iod_ok)
      → IsOpened flags handler sub
  unfolding ios_dev_sub_open checked
  ios_dev_sub_open-IsOpened allocated flags handler sub small opened =
      validated-IsOpened flags _ handler sub small (passed allocated _ _ sub opened)

  -- Closing a device that was opened on a space that is not a zombie leaves that space as it was.
  pub ios_dev_sub_close-open :
      (allocated : Bool) (flags : ℕ) (handler : Handler) (sub : SubDev D)
      → ios.zombie_p ≡ false
      → ios_dev_sub_open dev_if allocated flags (some handler) (some ios) ≡ (some sub, iod_ok)
      → ios_dev_sub_close sub ≡ some (some ios)
  unfolding ios_dev_sub_open checked ios_dev_sub_close validated
  ios_dev_sub_close-open allocated flags handler sub there opened =
      let (outside, contradicted, same) = accepted _ _ _ sub (passed allocated _ _ sub opened) in
      ap (λ (s : SubDev D). ios_dec_sub_dev s.base_ios) (sym same) ∙ dec-inc_sub_dev ios there
