-- ===== src/Ios/Write/Swap/Narrow.antt =====
-- The orders of two to five groups (libpoke/ios.c) are the message of the value.
use poke.Base.{ℕ, ◌+◌, ◌-◌, ◌*◌, ◌/◌, ◌%◌, ◌^◌, ◌<◌, ◌≡◌, ◌∙◌, ap, ap₂, arith}
use poke.Ios.Word.{shl64, shr, ◌|||◌, ◌&&&◌}
use poke.Ios.Read.Concat.{or_byte, or_tail}
use poke.Ios.Write.Message.{message}
use poke.Ios.Write.Order.{swap_2, swap_3, swap_4, swap_5}
use poke.Ios.Write.Swap.Group.{shl_group, shr_group, top_group}

pub swap_2-message :
    (bits v : ℕ) → v < 2 ^ (8 + bits % 8) → swap_2 bits v ≡ message 1 (bits % 8) 0 v
unfolding swap_2 message
swap_2-message bits v fits =
    let r = bits % 8 in
    let top = top_group v 8 r (omega arith) fits in
    let e0 : shl64 (v &&& 0xff) r ≡ (v / 2 ^ 0 % 256) * 2 ^ r =
      (shl_group v 0 r (omega arith) ∙ ap (λ x. (v / 2 ^ 0 % 256) * 2 ^ x) (omega arith)) in
    ap (λ x. (shl64 (v &&& 0xff) r) ||| x) top.0
    ∙ or_tail ((v / 2 ^ 0 % 256)) (v / 2 ^ 8) r e0 top.1
    ∙ ap₂ (λ h t. h * 2 ^ r + t) (omega arith) (omega arith)

pub swap_3-message :
    (bits v : ℕ) → v < 2 ^ (16 + bits % 8) → swap_3 bits v ≡ message 2 (bits % 8) 0 v
unfolding swap_3 message
swap_3-message bits v fits =
    let r = bits % 8 in
    let top = top_group v 16 r (omega arith) fits in
    let e0 : shl64 (v &&& 0xff) (8 + r) ≡ (v / 2 ^ 0 % 256) * 2 ^ (8 + r) =
      (shl_group v 0 (8 + r) (omega arith) ∙ ap (λ x. (v / 2 ^ 0 % 256) * 2 ^ x) (omega arith)) in
    let e1 : shr (v &&& 0xff00) (8 - r) ≡ (v / 2 ^ 8 % 256) * 2 ^ r =
      (shr_group v 8 (8 - r) (omega arith) ∙ ap (λ x. (v / 2 ^ 8 % 256) * 2 ^ x) (omega arith)) in
    ap (λ x. (shl64 (v &&& 0xff) (8 + r)) ||| (shr (v &&& 0xff00) (8 - r)) ||| x) top.0
    ∙ or_tail (((v / 2 ^ 0 % 256)) * 256 + (v / 2 ^ 8 % 256)) (v / 2 ^ 16) r
        (or_byte ((v / 2 ^ 0 % 256)) (v / 2 ^ 8 % 256) r (8 + r) e0 e1 (omega arith) (omega arith))
        top.1
    ∙ ap₂ (λ h t. h * 2 ^ r + t) (omega arith) (omega arith)

pub swap_4-message :
    (bits v : ℕ) → v < 2 ^ (24 + bits % 8) → swap_4 bits v ≡ message 3 (bits % 8) 0 v
unfolding swap_4 message
swap_4-message bits v fits =
    let r = bits % 8 in
    let top = top_group v 24 r (omega arith) fits in
    let e0 : shl64 (v &&& 0xff) (16 + r) ≡ (v / 2 ^ 0 % 256) * 2 ^ (16 + r) =
      (shl_group v 0 (16 + r) (omega arith) ∙ ap (λ x. (v / 2 ^ 0 % 256) * 2 ^ x) (omega arith)) in
    let e1 : shl64 (v &&& 0xff00) r ≡ (v / 2 ^ 8 % 256) * 2 ^ (8 + r) =
      (shl_group v 8 r (omega arith) ∙ ap (λ x. (v / 2 ^ 8 % 256) * 2 ^ x) (omega arith)) in
    let e2 : shr (v &&& 0xff0000) (16 - r) ≡ (v / 2 ^ 16 % 256) * 2 ^ r =
      (shr_group v 16 (16 - r) (omega arith)
        ∙ ap (λ x. (v / 2 ^ 16 % 256) * 2 ^ x) (omega arith)) in
    ap
      (λ x.
        (shl64 (v &&& 0xff) (16 + r))
        ||| (shl64 (v &&& 0xff00) r)
        ||| (shr (v &&& 0xff0000) (16 - r))
        ||| x)
      top.0
    ∙ or_tail ((((v / 2 ^ 0 % 256)) * 256 + (v / 2 ^ 8 % 256)) * 256 + (v / 2 ^ 16 % 256))
        (v / 2 ^ 24) r
        (or_byte (((v / 2 ^ 0 % 256)) * 256 + (v / 2 ^ 8 % 256)) (v / 2 ^ 16 % 256) r (8 + r)
          (or_byte ((v / 2 ^ 0 % 256)) (v / 2 ^ 8 % 256) (8 + r) (16 + r) e0 e1 (omega arith)
            (omega arith))
          e2 (omega arith) (omega arith))
        top.1
    ∙ ap₂ (λ h t. h * 2 ^ r + t) (omega arith) (omega arith)

pub swap_5-message :
    (bits v : ℕ) → v < 2 ^ (32 + bits % 8) → swap_5 bits v ≡ message 4 (bits % 8) 0 v
unfolding swap_5 message
swap_5-message bits v fits =
    let r = bits % 8 in
    let top = top_group v 32 r (omega arith) fits in
    let e0 : shl64 (v &&& 0xff) (24 + r) ≡ (v / 2 ^ 0 % 256) * 2 ^ (24 + r) =
      (shl_group v 0 (24 + r) (omega arith) ∙ ap (λ x. (v / 2 ^ 0 % 256) * 2 ^ x) (omega arith)) in
    let e1 : shl64 (v &&& 0xff00) (8 + r) ≡ (v / 2 ^ 8 % 256) * 2 ^ (16 + r) =
      (shl_group v 8 (8 + r) (omega arith) ∙ ap (λ x. (v / 2 ^ 8 % 256) * 2 ^ x) (omega arith)) in
    let e2 : shr (v &&& 0xff0000) (8 - r) ≡ (v / 2 ^ 16 % 256) * 2 ^ (8 + r) =
      (shr_group v 16 (8 - r) (omega arith) ∙ ap (λ x. (v / 2 ^ 16 % 256) * 2 ^ x) (omega arith)) in
    let e3 : shr (v &&& 0xff000000) (24 - r) ≡ (v / 2 ^ 24 % 256) * 2 ^ r =
      (shr_group v 24 (24 - r) (omega arith)
        ∙ ap (λ x. (v / 2 ^ 24 % 256) * 2 ^ x) (omega arith)) in
    ap
      (λ x.
        (shl64 (v &&& 0xff) (24 + r))
        ||| (shl64 (v &&& 0xff00) (8 + r))
        ||| (shr (v &&& 0xff0000) (8 - r))
        ||| (shr (v &&& 0xff000000) (24 - r))
        ||| x)
      top.0
    ∙ or_tail
        (((((v / 2 ^ 0 % 256)) * 256 + (v / 2 ^ 8 % 256)) * 256 + (v / 2 ^ 16 % 256)) * 256
          + (v / 2 ^ 24 % 256))
        (v / 2 ^ 32) r
        (or_byte ((((v / 2 ^ 0 % 256)) * 256 + (v / 2 ^ 8 % 256)) * 256 + (v / 2 ^ 16 % 256))
          (v / 2 ^ 24 % 256) r (8 + r)
          (or_byte (((v / 2 ^ 0 % 256)) * 256 + (v / 2 ^ 8 % 256)) (v / 2 ^ 16 % 256) (8 + r)
            (16 + r)
            (or_byte ((v / 2 ^ 0 % 256)) (v / 2 ^ 8 % 256) (16 + r) (24 + r) e0 e1 (omega arith)
              (omega arith))
            e2 (omega arith) (omega arith))
          e3 (omega arith) (omega arith))
        top.1
    ∙ ap₂ (λ h t. h * 2 ^ r + t) (omega arith) (omega arith)
