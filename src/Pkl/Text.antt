-- ===== src/Pkl/Text.antt =====
-- C strings, and the calls of the C library on them that libpoke/pkl-env.c makes. A string is the list
-- of its bytes, without the final null.
pub mod Laws
use poke.Base.{
  ℕ, zero, suc, ◌+◌, ◌-◌, ◌*◌, ◌/◌, ◌%◌, ◌^◌, ◌<◌, ◌≤◌, ◌≡◌, Bool, true, false, ltb, leb, ◌==◌,
  ◌&&◌, if◌then◌else◌, List, [], ◌∷◌, ◌++◌, Option, none, some,
}

abbrev pub Text : Type 0
Text = List ℕ

-- STREQ
unfoldable pub streq : Text → Text → Bool
streq [] [] = true
streq (a ∷ s) (b ∷ t) = (a == b) && streq s t
streq _ _ = false

-- `strchr (s, '$')`: the text from the first dollar on.
unfoldable pub dollar_of : Text → Option Text
dollar_of [] = none
dollar_of (a ∷ s) = if a == b'$' then some (a ∷ s) else dollar_of s

-- The text once a null byte is put at the place of its first dollar.
unfoldable pub truncated : Text → Text
truncated [] = []
truncated (a ∷ s) = if a == b'$' then [] else a ∷ truncated s

-- The digits that `%d` prints, of a number below 10 ^ places.
unfoldable pub decimal_in : (places : ℕ) → ℕ → Text
decimal_in zero n = []
decimal_in (suc places) n =
    let front = decimal_in places (n / 10) in
    if ltb n 10 then (b'0' + n) ∷ [] else front ++ ((b'0' + n % 10) ∷ [])

-- `%d` of a non-negative `int`, which has ten digits at most.
abbrev pub decimal : ℕ → Text
decimal n = decimal_in 10 n

unfoldable pub is_digit : ℕ → Bool
is_digit c = leb b'0' c && leb c b'9'

-- The loop of `atoi`: it stops at what is no digit.
unfoldable pub atoi_from : ℕ → Text → ℕ
atoi_from n [] = n
atoi_from n (c ∷ s) = if is_digit c then atoi_from (n * 10 + (c - b'0')) s else n

-- `atoi`, of a text that begins with neither blanks nor a sign.
abbrev pub atoi : Text → ℕ
atoi s = atoi_from 0 s
