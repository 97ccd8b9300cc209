-- ===== src/Base/Bits/Step.antt =====
-- One equation for the lowest digit of the native `bit_or` and `bit_and`, which are defined by a
-- recursion on binary digits that carries fuel.
use Prim.Native.Nat.{ℕ, zero, suc, ◌+◌, ◌-◌, ◌*◌, ◌/◌, ◌%◌, ◌≤◌, min, max, bit_and, bit_or}
use Prim.Native.Nat.{digits, bit_and-bitwise, bit_or-bitwise}
use mathlib.Core.Path.{◌≡◌, refl, ◌∙◌}
use native.Mathlib.Omega.{arith}

module _ (rest : ℕ → ℕ) (op : ℕ → ℕ → ℕ) where
  -- one more unit of fuel than the number needs changes nothing
  one_more : (fuel x y : ℕ) → x ≤ fuel → digits rest op (suc fuel) x y ≡ digits rest op fuel x y
  one_more zero zero y h = refl
  one_more zero (suc x) y h = absurd (omega arith)
  one_more (suc fuel) zero y h = refl
  one_more (suc fuel) (suc x) y h = rw (one_more fuel (suc x / 2) (y / 2) (omega arith))

  -- nor do any number of units
  surplus : (k x y : ℕ) → digits rest op (k + x) x y ≡ digits rest op x x y
  surplus zero x y = rw (let e : 0 + x ≡ x = omega arith in e)
  surplus (suc k) x y =
      rw (let e : suc k + x ≡ suc (k + x) = omega arith in e)
        (one_more (k + x) x y (omega arith) ∙ surplus k x y)

  exact_fuel : (fuel x y : ℕ) → x ≤ fuel → digits rest op fuel x y ≡ digits rest op x x y
  exact_fuel fuel x y h =
      rw (← (let e : fuel - x + x ≡ fuel = omega arith in e)) (surplus (fuel - x) x y)

-- `|` and `&` digit by digit, the lowest one last.
pub or_digit : (x y : ℕ) → bit_or x y ≡ 2 * bit_or (x / 2) (y / 2) + max (x % 2) (y % 2)
or_digit zero y = simp bit_or-bitwise (omega arith)
or_digit (suc x) y =
    let enough = exact_fuel (λ d. d) max x (suc x / 2) (y / 2) (omega arith) in
    simp bit_or-bitwise (omega (arith, enough))

pub and_digit : (x y : ℕ) → bit_and x y ≡ 2 * bit_and (x / 2) (y / 2) + min (x % 2) (y % 2)
and_digit zero y = simp bit_and-bitwise (omega arith)
and_digit (suc x) y =
    let enough = exact_fuel (λ d. 0) min x (suc x / 2) (y / 2) (omega arith) in
    simp bit_and-bitwise (omega (arith, enough))
