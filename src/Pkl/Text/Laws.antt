-- ===== src/Pkl/Text/Laws.antt =====
-- The laws of the C strings.
use poke.Base.{
  ℕ, zero, suc, ◌+◌, ◌-◌, ◌*◌, ◌/◌, ◌%◌, ◌^◌, ◌<◌, ◌≡◌, ◌≢◌, ◌∙◌, refl, ap, true, false, ltb, [],
  ◌∷◌, ◌++◌, none, some, arith, Bool-cases, inl, inr,
}
use native.Mathlib.Nat.{pow-suc}
use poke.Pkl.Text.{Text, streq, dollar_of, truncated, decimal_in, is_digit, atoi_from}

pub streq_refl : (s : Text) → streq s s ≡ true
unfolding streq
streq_refl [] = refl
streq_refl (a ∷ s) = ground (arith, streq_refl s)

pub streq→eq : (s t : Text) → streq s t ≡ true → s ≡ t
unfolding streq
streq→eq [] [] h = refl
streq→eq (a ∷ s) (b ∷ t) h = ground (arith, streq→eq s t)
streq→eq [] (b ∷ t) h = ground arith
streq→eq (a ∷ s) [] h = ground arith

pub streq_ne : (s t : Text) → s ≢ t → streq s t ≡ false
streq_ne s t h = elim (Bool-cases (streq s t)) [ inl e ↦ absurd (h (streq→eq s t e)) | inr e ↦ e ]

-- A name that the language can spell has no dollar.
abbrev pub IsPlain : Text → Type 0
IsPlain s = dollar_of s ≡ none

-- A name that a redefinition has made.
pub dollar_of-append : (s t : Text) → IsPlain s → dollar_of (s ++ (b'$' ∷ t)) ≡ some (b'$' ∷ t)
unfolding dollar_of
dollar_of-append [] t h = refl
dollar_of-append (a ∷ s) t h = ground (arith, dollar_of-append s t)

pub truncated-append : (s t : Text) → IsPlain s → truncated (s ++ (b'$' ∷ t)) ≡ s
unfolding dollar_of truncated
truncated-append [] t h = refl
truncated-append (a ∷ s) t h = ground (arith, truncated-append s t)

pub append-ne_plain : (s t u : Text) → IsPlain s → IsPlain u → s ++ (b'$' ∷ t) ≢ u
append-ne_plain s t u h k e = ground (arith, dollar_of-append s t h, ap dollar_of e)

AllDigits : Text → Type 0
AllDigits [] = Unit
AllDigits (c ∷ s) = (is_digit c ≡ true) × AllDigits s

AllDigits-append : (s : Text) (d : ℕ) → AllDigits s → d < 10 → AllDigits (s ++ ((b'0' + d) ∷ []))
unfolding AllDigits is_digit
AllDigits-append [] d h k = (ground arith, tt)
AllDigits-append (c ∷ s) d h k = (h.0, AllDigits-append s d h.1 k)

AllDigits-decimal_in : (places n : ℕ) → AllDigits (decimal_in places n)
unfolding decimal_in AllDigits is_digit
AllDigits-decimal_in zero n = tt
AllDigits-decimal_in (suc places) n = elim (Bool-cases (ltb n 10)) [
  | inl e ↦ rw e (ground arith, tt)
  | inr e ↦ rw e (
      AllDigits-append (decimal_in places (n / 10)) (n % 10) (AllDigits-decimal_in places (n / 10))
        (omega arith))
]

atoi_from-append :
    (n : ℕ) (s : Text) (d : ℕ)
    → AllDigits s
    → d < 10
    → atoi_from n (s ++ ((b'0' + d) ∷ [])) ≡ atoi_from n s * 10 + d
unfolding atoi_from AllDigits is_digit
atoi_from-append n [] d h k = ground arith
atoi_from-append n (c ∷ s) d h k = rw h.0 (atoi_from-append (n * 10 + (c - b'0')) s d h.1 k)

-- `atoi` reads what `%d` prints.
pub atoi_from-decimal_in : (places n : ℕ) → n < 10 ^ places → atoi_from 0 (decimal_in places n) ≡ n
unfolding atoi_from decimal_in is_digit
atoi_from-decimal_in zero n h = ground arith
atoi_from-decimal_in (suc places) n h = elim (Bool-cases (ltb n 10)) [
  | inl e ↦ rw e (ground arith)
  | inr e ↦
      let small : n / 10 < 10 ^ places =
        let p : 10 ^ suc places ≡ 10 ^ places * 10 = pow-suc 10 places in omega arith in
      rw e (
        atoi_from-append 0 (decimal_in places (n / 10)) (n % 10)
          (AllDigits-decimal_in places (n / 10)) (omega arith)
        ∙ omega (arith, atoi_from-decimal_in places (n / 10) small))
]
