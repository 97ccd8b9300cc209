-- ===== src/Ios/Write/Swap/Wide.antt =====
-- The orders of six to eight groups (libpoke/ios.c) are the message of the value.
use poke.Base.{ℕ, ◌+◌, ◌-◌, ◌*◌, ◌/◌, ◌%◌, ◌^◌, ◌<◌, ◌≡◌, ◌∙◌, ap, ap₂, arith}
use poke.Ios.Word.{shl64, shr, ◌|||◌, ◌&&&◌}
use poke.Ios.Read.Concat.{or_byte, or_tail}
use poke.Ios.Write.Message.{message}
use poke.Ios.Write.Order.{swap_6, swap_7, swap_8}
use poke.Ios.Write.Swap.Group.{shl_group, shr_group, top_group}

pub swap_6-message :
    (bits v : ℕ) → v < 2 ^ (40 + bits % 8) → swap_6 bits v ≡ message 5 (bits % 8) 0 v
unfolding swap_6 message
swap_6-message bits v fits =
    let r = bits % 8 in
    let top = top_group v 40 r (omega arith) fits in
    let e0 : shl64 (v &&& 0xff) (32 + r) ≡ (v / 2 ^ 0 % 256) * 2 ^ (32 + r) =
      (shl_group v 0 (32 + r) (omega arith) ∙ ap (λ x. (v / 2 ^ 0 % 256) * 2 ^ x) (omega arith)) in
    let e1 : shl64 (v &&& 0xff00) (16 + r) ≡ (v / 2 ^ 8 % 256) * 2 ^ (24 + r) =
      (shl_group v 8 (16 + r) (omega arith) ∙ ap (λ x. (v / 2 ^ 8 % 256) * 2 ^ x) (omega arith)) in
    let e2 : shl64 (v &&& 0xff0000) r ≡ (v / 2 ^ 16 % 256) * 2 ^ (16 + r) =
      (shl_group v 16 r (omega arith) ∙ ap (λ x. (v / 2 ^ 16 % 256) * 2 ^ x) (omega arith)) in
    let e3 : shr (v &&& 0xff000000) (16 - r) ≡ (v / 2 ^ 24 % 256) * 2 ^ (8 + r) =
      (shr_group v 24 (16 - r) (omega arith)
        ∙ ap (λ x. (v / 2 ^ 24 % 256) * 2 ^ x) (omega arith)) in
    let e4 : shr (v &&& 0xff00000000) (32 - r) ≡ (v / 2 ^ 32 % 256) * 2 ^ r =
      (shr_group v 32 (32 - r) (omega arith)
        ∙ ap (λ x. (v / 2 ^ 32 % 256) * 2 ^ x) (omega arith)) in
    ap
      (λ x.
        (shl64 (v &&& 0xff) (32 + r))
        ||| (shl64 (v &&& 0xff00) (16 + r))
        ||| (shl64 (v &&& 0xff0000) r)
        ||| (shr (v &&& 0xff000000) (16 - r))
        ||| (shr (v &&& 0xff00000000) (32 - r))
        ||| x)
      top.0
    ∙ or_tail
        ((((((v / 2 ^ 0 % 256)) * 256 + (v / 2 ^ 8 % 256)) * 256 + (v / 2 ^ 16 % 256)) * 256
              + (v / 2 ^ 24 % 256))
            * 256
          + (v / 2 ^ 32 % 256))
        (v / 2 ^ 40) r
        (or_byte
          (((((v / 2 ^ 0 % 256)) * 256 + (v / 2 ^ 8 % 256)) * 256 + (v / 2 ^ 16 % 256)) * 256
            + (v / 2 ^ 24 % 256))
          (v / 2 ^ 32 % 256) r (8 + r)
          (or_byte ((((v / 2 ^ 0 % 256)) * 256 + (v / 2 ^ 8 % 256)) * 256 + (v / 2 ^ 16 % 256))
            (v / 2 ^ 24 % 256) (8 + r) (16 + r)
            (or_byte (((v / 2 ^ 0 % 256)) * 256 + (v / 2 ^ 8 % 256)) (v / 2 ^ 16 % 256) (16 + r)
              (24 + r)
              (or_byte ((v / 2 ^ 0 % 256)) (v / 2 ^ 8 % 256) (24 + r) (32 + r) e0 e1 (omega arith)
                (omega arith))
              e2 (omega arith) (omega arith))
            e3 (omega arith) (omega arith))
          e4 (omega arith) (omega arith))
        top.1
    ∙ ap₂ (λ h t. h * 2 ^ r + t) (omega arith) (omega arith)

pub swap_7-message :
    (bits v : ℕ) → v < 2 ^ (48 + bits % 8) → swap_7 bits v ≡ message 6 (bits % 8) 0 v
unfolding swap_7 message
swap_7-message bits v fits =
    let r = bits % 8 in
    let top = top_group v 48 r (omega arith) fits in
    let e0 : shl64 (v &&& 0xff) (40 + r) ≡ (v / 2 ^ 0 % 256) * 2 ^ (40 + r) =
      (shl_group v 0 (40 + r) (omega arith) ∙ ap (λ x. (v / 2 ^ 0 % 256) * 2 ^ x) (omega arith)) in
    let e1 : shl64 (v &&& 0xff00) (24 + r) ≡ (v / 2 ^ 8 % 256) * 2 ^ (32 + r) =
      (shl_group v 8 (24 + r) (omega arith) ∙ ap (λ x. (v / 2 ^ 8 % 256) * 2 ^ x) (omega arith)) in
    let e2 : shl64 (v &&& 0xff0000) (8 + r) ≡ (v / 2 ^ 16 % 256) * 2 ^ (24 + r) =
      (shl_group v 16 (8 + r) (omega arith) ∙ ap (λ x. (v / 2 ^ 16 % 256) * 2 ^ x) (omega arith)) in
    let e3 : shr (v &&& 0xff000000) (8 - r) ≡ (v / 2 ^ 24 % 256) * 2 ^ (16 + r) =
      (shr_group v 24 (8 - r) (omega arith) ∙ ap (λ x. (v / 2 ^ 24 % 256) * 2 ^ x) (omega arith)) in
    let e4 : shr (v &&& 0xff00000000) (24 - r) ≡ (v / 2 ^ 32 % 256) * 2 ^ (8 + r) =
      (shr_group v 32 (24 - r) (omega arith)
        ∙ ap (λ x. (v / 2 ^ 32 % 256) * 2 ^ x) (omega arith)) in
    let e5 : shr (v &&& 0xff0000000000) (40 - r) ≡ (v / 2 ^ 40 % 256) * 2 ^ r =
      (shr_group v 40 (40 - r) (omega arith)
        ∙ ap (λ x. (v / 2 ^ 40 % 256) * 2 ^ x) (omega arith)) in
    ap
      (λ x.
        (shl64 (v &&& 0xff) (40 + r))
        ||| (shl64 (v &&& 0xff00) (24 + r))
        ||| (shl64 (v &&& 0xff0000) (8 + r))
        ||| (shr (v &&& 0xff000000) (8 - r))
        ||| (shr (v &&& 0xff00000000) (24 - r))
        ||| (shr (v &&& 0xff0000000000) (40 - r))
        ||| x)
      top.0
    ∙ or_tail
        (((((((v / 2 ^ 0 % 256)) * 256 + (v / 2 ^ 8 % 256)) * 256 + (v / 2 ^ 16 % 256)) * 256
                  + (v / 2 ^ 24 % 256))
                * 256
              + (v / 2 ^ 32 % 256))
            * 256
          + (v / 2 ^ 40 % 256))
        (v / 2 ^ 48) r
        (or_byte
          ((((((v / 2 ^ 0 % 256)) * 256 + (v / 2 ^ 8 % 256)) * 256 + (v / 2 ^ 16 % 256)) * 256
                + (v / 2 ^ 24 % 256))
              * 256
            + (v / 2 ^ 32 % 256))
          (v / 2 ^ 40 % 256) r (8 + r)
          (or_byte
            (((((v / 2 ^ 0 % 256)) * 256 + (v / 2 ^ 8 % 256)) * 256 + (v / 2 ^ 16 % 256)) * 256
              + (v / 2 ^ 24 % 256))
            (v / 2 ^ 32 % 256) (8 + r) (16 + r)
            (or_byte ((((v / 2 ^ 0 % 256)) * 256 + (v / 2 ^ 8 % 256)) * 256 + (v / 2 ^ 16 % 256))
              (v / 2 ^ 24 % 256) (16 + r) (24 + r)
              (or_byte (((v / 2 ^ 0 % 256)) * 256 + (v / 2 ^ 8 % 256)) (v / 2 ^ 16 % 256) (24 + r)
                (32 + r)
                (or_byte ((v / 2 ^ 0 % 256)) (v / 2 ^ 8 % 256) (32 + r) (40 + r) e0 e1 (omega arith)
                  (omega arith))
                e2 (omega arith) (omega arith))
              e3 (omega arith) (omega arith))
            e4 (omega arith) (omega arith))
          e5 (omega arith) (omega arith))
        top.1
    ∙ ap₂ (λ h t. h * 2 ^ r + t) (omega arith) (omega arith)

pub swap_8-message :
    (bits v : ℕ) → v < 2 ^ (56 + bits % 8) → swap_8 bits v ≡ message 7 (bits % 8) 0 v
unfolding swap_8 message
swap_8-message bits v fits =
    let r = bits % 8 in
    let top = top_group v 56 r (omega arith) fits in
    let e0 : shl64 (v &&& 0xff) (48 + r) ≡ (v / 2 ^ 0 % 256) * 2 ^ (48 + r) =
      (shl_group v 0 (48 + r) (omega arith) ∙ ap (λ x. (v / 2 ^ 0 % 256) * 2 ^ x) (omega arith)) in
    let e1 : shl64 (v &&& 0xff00) (32 + r) ≡ (v / 2 ^ 8 % 256) * 2 ^ (40 + r) =
      (shl_group v 8 (32 + r) (omega arith) ∙ ap (λ x. (v / 2 ^ 8 % 256) * 2 ^ x) (omega arith)) in
    let e2 : shl64 (v &&& 0xff0000) (16 + r) ≡ (v / 2 ^ 16 % 256) * 2 ^ (32 + r) =
      (shl_group v 16 (16 + r) (omega arith)
        ∙ ap (λ x. (v / 2 ^ 16 % 256) * 2 ^ x) (omega arith)) in
    let e3 : shl64 (v &&& 0xff000000) r ≡ (v / 2 ^ 24 % 256) * 2 ^ (24 + r) =
      (shl_group v 24 r (omega arith) ∙ ap (λ x. (v / 2 ^ 24 % 256) * 2 ^ x) (omega arith)) in
    let e4 : shr (v &&& 0xff00000000) (16 - r) ≡ (v / 2 ^ 32 % 256) * 2 ^ (16 + r) =
      (shr_group v 32 (16 - r) (omega arith)
        ∙ ap (λ x. (v / 2 ^ 32 % 256) * 2 ^ x) (omega arith)) in
    let e5 : shr (v &&& 0xff0000000000) (32 - r) ≡ (v / 2 ^ 40 % 256) * 2 ^ (8 + r) =
      (shr_group v 40 (32 - r) (omega arith)
        ∙ ap (λ x. (v / 2 ^ 40 % 256) * 2 ^ x) (omega arith)) in
    let e6 : shr (v &&& 0xff000000000000) (48 - r) ≡ (v / 2 ^ 48 % 256) * 2 ^ r =
      (shr_group v 48 (48 - r) (omega arith)
        ∙ ap (λ x. (v / 2 ^ 48 % 256) * 2 ^ x) (omega arith)) in
    ap
      (λ x.
        (shl64 (v &&& 0xff) (48 + r))
        ||| (shl64 (v &&& 0xff00) (32 + r))
        ||| (shl64 (v &&& 0xff0000) (16 + r))
        ||| (shl64 (v &&& 0xff000000) r)
        ||| (shr (v &&& 0xff00000000) (16 - r))
        ||| (shr (v &&& 0xff0000000000) (32 - r))
        ||| (shr (v &&& 0xff000000000000) (48 - r))
        ||| x)
      top.0
    ∙ or_tail
        ((((((((v / 2 ^ 0 % 256)) * 256 + (v / 2 ^ 8 % 256)) * 256 + (v / 2 ^ 16 % 256)) * 256
                      + (v / 2 ^ 24 % 256))
                    * 256
                  + (v / 2 ^ 32 % 256))
                * 256
              + (v / 2 ^ 40 % 256))
            * 256
          + (v / 2 ^ 48 % 256))
        (v / 2 ^ 56) r
        (or_byte
          (((((((v / 2 ^ 0 % 256)) * 256 + (v / 2 ^ 8 % 256)) * 256 + (v / 2 ^ 16 % 256)) * 256
                    + (v / 2 ^ 24 % 256))
                  * 256
                + (v / 2 ^ 32 % 256))
              * 256
            + (v / 2 ^ 40 % 256))
          (v / 2 ^ 48 % 256) r (8 + r)
          (or_byte
            ((((((v / 2 ^ 0 % 256)) * 256 + (v / 2 ^ 8 % 256)) * 256 + (v / 2 ^ 16 % 256)) * 256
                  + (v / 2 ^ 24 % 256))
                * 256
              + (v / 2 ^ 32 % 256))
            (v / 2 ^ 40 % 256) (8 + r) (16 + r)
            (or_byte
              (((((v / 2 ^ 0 % 256)) * 256 + (v / 2 ^ 8 % 256)) * 256 + (v / 2 ^ 16 % 256)) * 256
                + (v / 2 ^ 24 % 256))
              (v / 2 ^ 32 % 256) (16 + r) (24 + r)
              (or_byte ((((v / 2 ^ 0 % 256)) * 256 + (v / 2 ^ 8 % 256)) * 256 + (v / 2 ^ 16 % 256))
                (v / 2 ^ 24 % 256) (24 + r) (32 + r)
                (or_byte (((v / 2 ^ 0 % 256)) * 256 + (v / 2 ^ 8 % 256)) (v / 2 ^ 16 % 256) (32 + r)
                  (40 + r)
                  (or_byte ((v / 2 ^ 0 % 256)) (v / 2 ^ 8 % 256) (40 + r) (48 + r) e0 e1
                    (omega arith) (omega arith))
                  e2 (omega arith) (omega arith))
                e3 (omega arith) (omega arith))
              e4 (omega arith) (omega arith))
            e5 (omega arith) (omega arith))
          e6 (omega arith) (omega arith))
        top.1
    ∙ ap₂ (λ h t. h * 2 ^ r + t) (omega arith) (omega arith)
