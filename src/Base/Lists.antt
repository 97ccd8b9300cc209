-- ===== src/Base/Lists.antt =====
-- Lists measured and indexed by native numbers, under the library's names: the arrays of the code.
use Prim.Native.Nat.{ℕ, zero, suc, ◌+◌, ◌-◌, ◌<◌, ◌≤◌, min}
use mathlib.Core.Path.{◌≡◌, refl, ap, ◌∙◌}
use mathlib.Core.Logic.{◌⊎◌, inl, inr}
use mathlib.Core.List.{List, [], ◌∷◌, ◌++◌}
use mathlib.Core.Option.{Option, none, some}
use native.Mathlib.Omega.{arith}

module _ {ℓ} {A : Type ℓ} where
  abbrev pub length : List A → ℕ
  length [] = 0
  length (x ∷ xs) = suc (length xs)

  abbrev pub get_elem? : List A → ℕ → Option A
  get_elem? [] i = none
  get_elem? (x ∷ xs) zero = some x
  get_elem? (x ∷ xs) (suc i) = get_elem? xs i

  abbrev pub get_or : List A → ℕ → A → A
  get_or [] i d = d
  get_or (x ∷ xs) zero d = x
  get_or (x ∷ xs) (suc i) d = get_or xs i d

  abbrev pub take : ℕ → List A → List A
  take zero xs = []
  take (suc n) [] = []
  take (suc n) (x ∷ xs) = x ∷ take n xs

  abbrev pub drop : ℕ → List A → List A
  drop zero xs = xs
  drop (suc n) [] = []
  drop (suc n) (x ∷ xs) = drop n xs

  abbrev pub replicate : ℕ → A → List A
  replicate zero a = []
  replicate (suc n) a = a ∷ replicate n a

  pub length-append : (xs ys : List A) → length (xs ++ ys) ≡ length xs + length ys
  length-append [] ys = omega arith
  length-append (x ∷ xs) ys = omega (arith, length-append xs ys)

  pub length-take : (n : ℕ) (xs : List A) → length (take n xs) ≡ min n (length xs)
  length-take zero xs = omega arith
  length-take (suc n) [] = omega arith
  length-take (suc n) (x ∷ xs) = omega (arith, length-take n xs)

  pub length-drop : (n : ℕ) (xs : List A) → length (drop n xs) ≡ length xs - n
  length-drop zero xs = omega arith
  length-drop (suc n) [] = omega arith
  length-drop (suc n) (x ∷ xs) = omega (arith, length-drop n xs)

  pub length-replicate : (n : ℕ) (a : A) → length (replicate n a) ≡ n
  length-replicate zero a = refl
  length-replicate (suc n) a = ap suc (length-replicate n a)

module _ {ℓ} {A : Type ℓ} where
  -- `xs` with the items from place `i` on replaced by `ys`.
  abbrev pub splice : List A → ℕ → List A → List A
  splice xs i ys = take i xs ++ ys ++ drop (i + length ys) xs

  pub get_or-take :
      (n : ℕ) (xs : List A) (i : ℕ) (d : A) → i < n → get_or (take n xs) i d ≡ get_or xs i d
  get_or-take zero xs i d h = absurd (omega arith)
  get_or-take (suc n) [] i d h = refl
  get_or-take (suc n) (x ∷ xs) zero d h = refl
  get_or-take (suc n) (x ∷ xs) (suc i) d h = get_or-take n xs i d (omega arith)

  pub get_or-drop :
      (n : ℕ) (xs : List A) (i : ℕ) (d : A) → get_or (drop n xs) i d ≡ get_or xs (n + i) d
  get_or-drop zero xs i d = ap (λ k. get_or xs k d) (omega arith)
  get_or-drop (suc n) [] i d = refl
  get_or-drop (suc n) (x ∷ xs) i d =
      get_or-drop n xs i d
      ∙ ap (λ k. get_or (x ∷ xs) k d) (let e : suc (n + i) ≡ suc n + i = omega arith in e)

  pub get_or-append_left :
      (xs ys : List A) (i : ℕ) (d : A) → i < length xs → get_or (xs ++ ys) i d ≡ get_or xs i d
  get_or-append_left [] ys i d h = absurd (omega arith)
  get_or-append_left (x ∷ xs) ys zero d h = refl
  get_or-append_left (x ∷ xs) ys (suc i) d h = get_or-append_left xs ys i d (omega arith)

  pub get_or-append_right :
      (xs ys : List A) (i : ℕ) (d : A) → get_or (xs ++ ys) (length xs + i) d ≡ get_or ys i d
  get_or-append_right [] ys i d = ap (λ k. get_or ys k d) (omega arith)
  get_or-append_right (x ∷ xs) ys i d =
      ap (λ k. get_or (x ∷ (xs ++ ys)) k d)
        (let e : suc (length xs) + i ≡ suc (length xs + i) = omega arith in e)
      ∙ get_or-append_right xs ys i d

  pub get_or-replicate : (n : ℕ) (a : A) (i : ℕ) → get_or (replicate n a) i a ≡ a
  get_or-replicate zero a i = refl
  get_or-replicate (suc n) a zero = refl
  get_or-replicate (suc n) a (suc i) = get_or-replicate n a i

  pub get_or_out : (xs : List A) (i : ℕ) (d : A) → length xs ≤ i → get_or xs i d ≡ d
  get_or_out [] i d h = refl
  get_or_out (x ∷ xs) zero d h = absurd (omega arith)
  get_or_out (x ∷ xs) (suc i) d h = get_or_out xs i d (omega arith)

  -- Padding with the default is not seen.
  pub get_or-append_replicate :
      (xs : List A) (n : ℕ) (d : A) (i : ℕ) → get_or (xs ++ replicate n d) i d ≡ get_or xs i d
  get_or-append_replicate [] n d i = get_or-replicate n d i
  get_or-append_replicate (x ∷ xs) n d zero = refl
  get_or-append_replicate (x ∷ xs) n d (suc i) = get_or-append_replicate xs n d i

  pub length-splice :
      (xs : List A) (i : ℕ) (ys : List A)
      → i + length ys ≤ length xs
      → length (splice xs i ys) ≡ length xs
  length-splice xs i ys h = omega (
    arith,
    length-append {ℓ} (take i xs ++ ys) (drop (i + length ys) xs),
    length-append {ℓ} (take i xs) ys,
    length-take {ℓ} i xs,
    length-drop {ℓ} (i + length ys) xs,
  )

  pub get_or-splice_in :
      (xs : List A) (i : ℕ) (ys : List A) (d : A) (j : ℕ)
      → i ≤ length xs
      → j < length ys
      → get_or (splice xs i ys) (i + j) d ≡ get_or ys j d
  get_or-splice_in xs i ys d j h hj =
      let front : length (take i xs) ≡ i = omega (arith, length-take {ℓ} i xs) in
      get_or-append_left (take i xs ++ ys) (drop (i + length ys) xs) (i + j) d
        (omega (arith, length-append {ℓ} (take i xs) ys))
      ∙ ap (λ k. get_or (take i xs ++ ys) k d)
          (let e : i + j ≡ length (take i xs) + j = omega arith in e)
      ∙ get_or-append_right (take i xs) ys j d

  pub get_or-splice_out :
      (xs : List A) (i : ℕ) (ys : List A) (d : A) (j : ℕ)
      → i + length ys ≤ length xs
      → (j < i) ⊎ (i + length ys ≤ j)
      → get_or (splice xs i ys) j d ≡ get_or xs j d
  get_or-splice_out xs i ys d j h (inl below) =
      get_or-append_left (take i xs ++ ys) (drop (i + length ys) xs) j d
        (omega (arith, length-append {ℓ} (take i xs) ys, length-take {ℓ} i xs))
      ∙ get_or-append_left (take i xs) ys j d (omega (arith, length-take {ℓ} i xs))
      ∙ get_or-take i xs j d below
  get_or-splice_out xs i ys d j h (inr above) =
      let front : length (take i xs ++ ys) ≡ i + length ys =
        omega (arith, length-append {ℓ} (take i xs) ys, length-take {ℓ} i xs) in
      let k = j - (i + length ys) in
      ap (λ n. get_or (splice xs i ys) n d)
        (let e : j ≡ length (take i xs ++ ys) + k = omega arith in e)
      ∙ get_or-append_right (take i xs ++ ys) (drop (i + length ys) xs) k d
      ∙ get_or-drop (i + length ys) xs k d
      ∙ ap (λ n. get_or xs n d) (let e : i + length ys + k ≡ j = omega arith in e)
