-- ===== src/Ios/Through.antt =====
-- libpoke/ios.c on a range of another space (libpoke/ios-dev-sub.c).
pub mod Reads
pub mod Writes
pub mod OnMem
mod Tests
use mathlib.Core.Bool.{not}
use poke.Base.{
  ℕ, ◌+◌, ◌<◌, ◌≤◌, ◌^◌, ◌≡◌, ◌∙◌, ◌*◌, ◌/◌, ◌%◌, refl, ap, ap₂, arith, Bool, if◌then◌else◌, false,
  true, leb, ◌||◌, if_false, List,
}
use poke.Base.Int.{ℤ, pos}
use poke.Ios.Space.{Space, at, place_of}
use poke.Iod.{DevIf, ios_f_read, ios_f_write, has_flag}
use poke.Iod.Mem.{add64}
use poke.Iod.Sub.{SubDev, with_dev, ios_dev_sub_pread, ios_dev_sub_pwrite}

-- A device on a space that is open, whose range does not wrap around.
pub record IsSub {D : Type 0} (sub : SubDev D) : Type 0 where
  pub there : sub.base_ios.zombie_p ≡ false
  pub small : sub.base + sub.size ≤ 2 ^ 64

-- The result of a routine on the base device, as that of one on the device.
abbrev pub lifted : {A D : Type 0} → SubDev D → A × D → A × SubDev D
lifted sub (a, dev) = (a, with_dev sub dev)

-- The result of a routine on the base space, as that of one on a space of the device.
abbrev pub on_range : {A D : Type 0} → Space (SubDev D) → A × Space D → A × Space (SubDev D)
on_range io (result, base) = (result, record io { dev = with_dev io.dev base.dev })

pub if_lifted :
    {A D : Type 0} (sub : SubDev D) (b : Bool) (x y : A × D) {x' y' : A × SubDev D}
    → x' ≡ lifted sub x
    → y' ≡ lifted sub y
    → (if b then x' else y') ≡ lifted sub (if b then x else y)
if_lifted sub true x y same other = same
if_lifted sub false x y same other = other

module _ {D : Type 0} (dev_if : DevIf D) (sub : SubDev D) (ready : IsSub sub) (offset : ℕ)
    (inside : offset < sub.size) where
  place : add64 sub.base offset ≡ sub.base + offset
  place = omega (arith, ready.small)

  within : leb sub.size offset ≡ false
  within = ground arith

  -- In the range the device reads what its base device does.
  pub sub_pread_lem :
      (count : ℕ)
      → has_flag sub.flags ios_f_read ≡ true
      → ios_dev_sub_pread dev_if sub count offset ≡ (
          let r = dev_if.pread sub.base_ios.dev count (sub.base + offset) in
          (r.0, r.1, with_dev sub r.2))
  unfolding ios_dev_sub_pread
  sub_pread_lem count readable =
      let allowed : (sub.base_ios.zombie_p || not (has_flag sub.flags ios_f_read)) ≡ false =
        rw (ready.there, readable) in
      if_false _ _ allowed
      ∙ if_false _ _ within
      ∙ ap (λ i. let r = dev_if.pread sub.base_ios.dev count i in (r.0, r.1, with_dev sub r.2))
          place

  pub sub_pwrite_lem :
      (buf : List ℕ)
      → has_flag sub.flags ios_f_write ≡ true
      → ios_dev_sub_pwrite dev_if sub buf offset
        ≡ lifted sub (dev_if.pwrite sub.base_ios.dev buf (sub.base + offset))
  unfolding ios_dev_sub_pwrite
  sub_pwrite_lem buf writable =
      let allowed : (sub.base_ios.zombie_p || not (has_flag sub.flags ios_f_write)) ≡ false =
        rw (ready.there, writable) in
      if_false _ _ allowed
      ∙ if_false _ _ within
      ∙ ap (λ i. lifted sub (dev_if.pwrite sub.base_ios.dev buf i)) place

-- A byte offset further on, the bit in the byte is the same.
pub place_on :
    (base o : ℕ) (z : ℤ) → z ≡ pos (8 * base + o) → place_of z ≡ at (o % 8) (base + o / 8)
unfolding place_of
place_on base o z h =
    ap place_of h
    ∙ ap₂ at (let e : (8 * base + o) % 8 ≡ o % 8 = omega arith in e)
        (let e : (8 * base + o) / 8 ≡ base + o / 8 = omega arith in e)

pub place_at : (o : ℕ) (z : ℤ) → z ≡ pos o → place_of z ≡ at (o % 8) (o / 8)
unfolding place_of
place_at o z h = ap place_of h
