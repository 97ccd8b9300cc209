-- ===== src/Base/Bits.antt =====
-- `|` of disjoint fields and `&` with a mask of low bits, as arithmetic at every width.
mod Step
use Prim.Native.Nat.{ℕ, zero, suc, ◌+◌, ◌-◌, ◌*◌, ◌/◌, ◌%◌, ◌^◌, ◌≤◌, ◌<◌, bit_and, bit_or}
use Step.{or_digit, and_digit}
use mathlib.Core.Path.{◌≡◌, refl, ap, ◌∙◌}
use native.Mathlib.Nat.{
  pow-suc, one-le-pow, mul-lt-mul_of_pos_right, zero-add, suc-add, add-zero, div-lt_iff_lt-mul,
}
use native.Mathlib.Decide.{ℕ_discrete}
use native.Mathlib.Omega.{arith}

bit_or-zero_below : (n a : ℕ) → a ≤ n → bit_or a 0 ≡ a
bit_or-zero_below n zero h = refl
bit_or-zero_below zero (suc a) h = absurd (omega arith)
bit_or-zero_below (suc n) (suc a) h =
    omega (arith, or_digit (suc a) 0, bit_or-zero_below n (suc a / 2) (omega arith))

pub bit_or-zero : (a : ℕ) → bit_or a 0 ≡ a
bit_or-zero a = bit_or-zero_below a a (omega arith)

bit_and-zero_below : (n a : ℕ) → a ≤ n → bit_and a 0 ≡ 0
bit_and-zero_below n zero h = refl
bit_and-zero_below zero (suc a) h = absurd (omega arith)
bit_and-zero_below (suc n) (suc a) h =
    omega (arith, and_digit (suc a) 0, bit_and-zero_below n (suc a / 2) (omega arith))

pub bit_and-zero : (a : ℕ) → bit_and a 0 ≡ 0
bit_and-zero a = bit_and-zero_below a a (omega arith)

pub mul-pow-suc : (q k : ℕ) → q * 2 ^ suc k ≡ 2 * (q * 2 ^ k)
mul-pow-suc q k = omega (arith, ap (λ (t : ℕ). q * t) (pow-suc 2 k))

pub pow-add : (a b : ℕ) → 2 ^ (a + b) ≡ 2 ^ a * 2 ^ b
pow-add zero b = rw (zero-add b) (omega arith)
pow-add (suc a) b =
    rw (suc-add a b)
      (omega (arith, pow-add a b, pow-suc 2 (a + b), ap (λ (t : ℕ). t * 2 ^ b) (pow-suc 2 a)))

-- `hi << w | lo` where `lo` has `w` bits.
pub bit_or_fields : (w hi lo : ℕ) → lo < 2 ^ w → bit_or (hi * 2 ^ w) lo ≡ hi * 2 ^ w + lo
bit_or_fields zero hi lo small = ground (arith, bit_or-zero hi)
bit_or_fields (suc w) hi lo small =
    let halves = bit_or_fields w hi (lo / 2) (omega (arith, pow-suc 2 w)) in
    ground (arith, halves, mul-pow-suc hi w, or_digit (hi * 2 ^ suc w) lo)

bit_and_fields : (w hi lo : ℕ) → lo < 2 ^ w → bit_and (hi * 2 ^ w + lo) (2 ^ w - 1) ≡ lo
bit_and_fields zero hi lo small = ground (arith, bit_and-zero (hi * 1 + lo))
bit_and_fields (suc w) hi lo small =
    let halves = bit_and_fields w hi (lo / 2) (omega (arith, pow-suc 2 w)) in
    let power = pow-suc 2 w in
    ground (
      arith,
      halves,
      power,
      one-le-pow w 2,
      mul-pow-suc hi w,
      and_digit (hi * 2 ^ suc w + lo) (2 ^ suc w - 1),
    )

-- A mask of the `w` lowest bits takes the remainder by `2^w`.
pub bit_and_low : (w x : ℕ) → bit_and x (2 ^ w - 1) ≡ x % 2 ^ w
bit_and_low w x =
    let split = bit_and_fields w (x / 2 ^ w) (x % 2 ^ w) in ground (arith, split, one-le-pow w 2)

-- A product of a field of `a` bits and `2^s` has `a + s` bits.
pub mul-pow-lt : (a s c : ℕ) → c < 2 ^ a → c * 2 ^ s < 2 ^ (a + s)
mul-pow-lt a s c h = omega (
  arith,
  pow-add a s,
  mul-lt-mul_of_pos_right {m = c} {n = 2 ^ a} {k = 2 ^ s} h (one-le-pow s 2 (omega arith)),
)

-- `&` works field by field.
pub bit_and_split :
    (k q m r t : ℕ)
    → r < 2 ^ k
    → t < 2 ^ k
    → bit_and (q * 2 ^ k + r) (m * 2 ^ k + t) ≡ bit_and q m * 2 ^ k + bit_and r t
bit_and_split zero q m r t hr ht = ground (arith, bit_and-zero 0)
bit_and_split (suc k) q m r t hr ht = ground (
  arith,
  and_digit (q * 2 ^ suc k + r) (m * 2 ^ suc k + t),
  and_digit r t,
  mul-pow-suc q k,
  mul-pow-suc m k,
  mul-pow-suc (bit_and q m) k,
  bit_and_split k q m (r / 2) (t / 2) (omega (arith, pow-suc 2 k)) (omega (arith, pow-suc 2 k)),
)

-- A mask whose low `k` bits are clear keeps the field above them.
pub bit_and_high :
    (k q m r : ℕ) → r < 2 ^ k → bit_and (q * 2 ^ k + r) (m * 2 ^ k) ≡ bit_and q m * 2 ^ k
bit_and_high k q m r h =
    rw (← add-zero (m * 2 ^ k))
      (bit_and_split k q m r 0 h (one-le-pow k 2 (omega arith)) ∙ omega (arith, bit_and-zero r))

-- The top `n` bits of a number of `n + m` bits.
pub div-pow-lt : (n m c : ℕ) → c < 2 ^ (n + m) → c / 2 ^ m < 2 ^ n
div-pow-lt n m c h =
    (div-lt_iff_lt-mul {k = 2 ^ m} (one-le-pow m 2 (omega arith))).1 (omega (arith, pow-add n m))

bit_or_comm_below : (n a b : ℕ) → a + b ≤ n → bit_or a b ≡ bit_or b a
bit_or_comm_below zero a b h =
    rw (let e : a ≡ 0 = omega arith in e, let e : b ≡ 0 = omega arith in e)
bit_or_comm_below (suc n) a b h = elim (ℕ_discrete (a + b) 0) [
  | yes e ↦ rw (let e : a ≡ 0 = omega arith in e, let e : b ≡ 0 = omega arith in e)
  | no ne ↦
      omega (arith, or_digit a b, or_digit b a, bit_or_comm_below n (a / 2) (b / 2) (omega arith))
]

pub bit_or_comm : (a b : ℕ) → bit_or a b ≡ bit_or b a
bit_or_comm a b = bit_or_comm_below (a + b) a b (omega arith)

-- `|` works field by field.
pub bit_or_split :
    (k q m r t : ℕ)
    → r < 2 ^ k
    → t < 2 ^ k
    → bit_or (q * 2 ^ k + r) (m * 2 ^ k + t) ≡ bit_or q m * 2 ^ k + bit_or r t
bit_or_split zero q m r t hr ht =
    let e : r ≡ 0 = omega arith in
    let f : t ≡ 0 = omega arith in rw (e, f) (ground (arith, bit_or-zero 0))
bit_or_split (suc k) q m r t hr ht = ground (
  arith,
  or_digit (q * 2 ^ suc k + r) (m * 2 ^ suc k + t),
  or_digit r t,
  mul-pow-suc q k,
  mul-pow-suc m k,
  mul-pow-suc (bit_or q m) k,
  bit_or_split k q m (r / 2) (t / 2) (omega (arith, pow-suc 2 k)) (omega (arith, pow-suc 2 k)),
)
