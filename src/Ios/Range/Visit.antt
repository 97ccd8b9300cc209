-- ===== src/Ios/Range/Visit.antt =====
-- What `ios_ivtree_visit_overlaps` (libpoke/ios-ivtree.h) visits.
use poke.Base.{
  ℕ, ◌≡◌, refl, ◌∙◌, sym, ap, arith, false, if◌then◌else◌, List, [], ◌∷◌, ◌++◌, inl, inr,
  Bool-cases,
}
use poke.Base.Int.{ℤ, ◌≤ℤ◌, ◌<ℤ◌, ltb_ℤ}
use poke.Ios.Range.{Tree, leaf, node, Node, overlaps, visit_overlaps}

-- The nodes, from the left to the right.
abbrev pub nodes : Tree → List Node
nodes leaf = []
nodes (node n left right) = nodes left ++ n ∷ nodes right

-- The payloads of the nodes that overlap.
abbrev pub overlapping : List Node → ℤ → ℤ → List ℕ
overlapping [] low high = []
overlapping (n ∷ ns) low high =
    let rest = overlapping ns low high in if overlaps n low high then n.val ∷ rest else rest

-- Each interval ends at `z` at the latest.
abbrev pub EndsBy : ℤ → Tree → Type 0
EndsBy z leaf = Unit
EndsBy z (node n left right) = (n.high ≤ℤ z) × EndsBy z left × EndsBy z right

-- Each interval starts at `z` at the earliest.
abbrev pub StartsFrom : ℤ → Tree → Type 0
StartsFrom z leaf = Unit
StartsFrom z (node n left right) = (z ≤ℤ n.low) × StartsFrom z left × StartsFrom z right

-- Each high-water mark covers the tree below it.
abbrev pub IsAugmented : Tree → Type 0
IsAugmented leaf = Unit
IsAugmented (node n left right) =
    EndsBy n.highest (node n left right) × IsAugmented left × IsAugmented right

-- The tree on the right of a node starts no earlier than the node.
abbrev pub IsOrdered : Tree → Type 0
IsOrdered leaf = Unit
IsOrdered (node n left right) = StartsFrom n.low right × IsOrdered left × IsOrdered right

overlapping-append :
    (xs ys : List Node) (low high : ℤ)
    → overlapping (xs ++ ys) low high ≡ overlapping xs low high ++ overlapping ys low high
overlapping-append [] ys low high = refl
overlapping-append (x ∷ xs) ys low high = elim (Bool-cases (overlaps x low high)) [
  | inl h ↦ rw h (ap (λ t. x.val ∷ t) (overlapping-append xs ys low high))
  | inr h ↦ rw h (overlapping-append xs ys low high)
]

overlapping_none :
    (xs : List Node) (n : Node) (ys : List Node) (low high : ℤ)
    → overlapping xs low high ≡ []
    → overlaps n low high ≡ false
    → overlapping ys low high ≡ []
    → overlapping (xs ++ n ∷ ys) low high ≡ []
overlapping_none xs n ys low high e f g = overlapping-append xs (n ∷ ys) low high ∙ rw (e, f, g)

-- Nothing that ends before `low` overlaps.
ends_before :
    (t : Tree) (z low high : ℤ) → EndsBy z t → z <ℤ low → overlapping (nodes t) low high ≡ []
ends_before leaf z low high h lt = refl
ends_before (node n left right) z low high (h, hl, hr) lt =
    overlapping_none (nodes left) n (nodes right) low high (ends_before left z low high hl lt)
      (ground (arith, h)) (ends_before right z low high hr lt)

-- Nor does anything that starts after `high`.
starts_after :
    (t : Tree) (z low high : ℤ) → StartsFrom z t → high <ℤ z → overlapping (nodes t) low high ≡ []
starts_after leaf z low high h lt = refl
starts_after (node n left right) z low high (h, hl, hr) lt =
    overlapping_none (nodes left) n (nodes right) low high (starts_after left z low high hl lt)
      (ground (arith, h)) (starts_after right z low high hr lt)

-- In an ordered tree whose high-water marks cover it, the visit calls the function on the payload of
-- each node whose interval overlaps, once and from the left to the right, and on no other.
pub visit_overlaps-overlapping :
    (t : Tree) (low high : ℤ)
    → IsAugmented t
    → IsOrdered t
    → visit_overlaps t low high ≡ overlapping (nodes t) low high
unfolding visit_overlaps
visit_overlaps-overlapping leaf low high a o = refl
visit_overlaps-overlapping (node n left right) low high (ends, al, ar) (starts, ol, or) =
    elim (Bool-cases (ltb_ℤ n.highest low)) [
      | inl h ↦ rw h (sym (ends_before (node n left right) n.highest low high ends (ground arith)))
      | inr h ↦
          rw
            (
              h,
              visit_overlaps-overlapping left low high al ol,
              visit_overlaps-overlapping right low high ar or,
              overlapping-append (nodes left) (n ∷ nodes right) low high,
            )
            (ap (λ t. overlapping (nodes left) low high ++ t) (tail (nodes right) starts_right))
    ]
  where
    starts_right : high <ℤ n.low → overlapping (nodes right) low high ≡ []
    starts_right = starts_after right n.low low high starts

    tail :
        (ns : List Node)
        → (high <ℤ n.low → overlapping ns low high ≡ [])
        → (if overlaps n low high then n.val ∷ [] else [])
            ++ (if ltb_ℤ high n.low then [] else overlapping ns low high)
          ≡ overlapping (n ∷ ns) low high
    tail ns none_after = elim (Bool-cases (ltb_ℤ high n.low)) [
      | inl k ↦
          rw (k, let e : overlaps n low high ≡ false = ground arith in e, none_after (ground arith))
      | inr k ↦ elim (Bool-cases (overlaps n low high)) [ inl q ↦ rw (k, q) | inr q ↦ rw (k, q) ]
    ]
