-- ===== src/Ios/Range/Entries.antt =====
-- What insertion (libpoke/ios-ivtree.h) does to the entries of the tree, read from the left.
use poke.Base.{
  ℕ, ◌≢◌, ◌≡◌, refl, sym, ◌∙◌, ap, arith, true, Bool-cases, inl, inr, List, [], ◌∷◌, length, Option,
  some,
}
use poke.Base.Int.{ℤ}
use poke.Ios.Range.{Color, black, red, Node, Tree, leaf, node}
use poke.Ios.Range.Insert.{
  Frame, on_left, on_right, node_of, is_black, is_red, colored, plug, under, rotated, recolored,
  sibling, rebalance_after_add,
}

-- An interval and its payload.
abbrev pub Entry : Type 0
Entry = ℤ × ℤ × ℕ

abbrev pub entry : Node → Entry
entry n = (n.low, n.high, n.val)

-- The entries of a tree, ahead of `rest`.
abbrev pub flat : Tree → List Entry → List Entry
flat leaf rest = rest
flat (node n left right) rest = flat left (entry n ∷ flat right rest)

-- The entries on the left of a place, ahead of `rest`, and those on its right.
abbrev pub before : List Frame → List Entry → List Entry
before [] rest = rest
before (on_left n right ∷ fs) rest = before fs rest
before (on_right n left ∷ fs) rest = before fs (flat left (entry n ∷ rest))

abbrev pub after : List Frame → List Entry
after [] = []
after (on_left n right ∷ fs) = entry n ∷ flat right (after fs)
after (on_right n left ∷ fs) = after fs

flat-plug : (t : Tree) (fs : List Frame) → flat (plug t fs) [] ≡ before fs (flat t (after fs))
flat-plug t [] = refl
flat-plug t (on_left n right ∷ fs) = flat-plug (node n t right) fs
flat-plug t (on_right n left ∷ fs) = flat-plug (node n left t) fs

flat-colored : (c : Color) (t : Tree) (rest : List Entry) → flat (colored c t) rest ≡ flat t rest
flat-colored c leaf rest = refl
flat-colored c (node n left right) rest = refl

-- The outermost frame has a black node.
abbrev pub IsRooted : List Frame → Type 0
IsRooted [] = Unit
IsRooted (f ∷ []) = is_black (node_of f).color ≡ true
IsRooted (f ∷ g ∷ fs) = IsRooted (g ∷ fs)

IsRooted-tail : (f : Frame) (fs : List Frame) → IsRooted (f ∷ fs) → IsRooted fs
IsRooted-tail f [] h = tt
IsRooted-tail f (g ∷ fs) h = h

-- The root is black.
abbrev pub BlackRoot : Tree → Type 0
BlackRoot leaf = Unit
BlackRoot (node n left right) = is_black n.color ≡ true

cons-empty : (f : Frame) (fs : List Frame) → (f ∷ fs) ≢ []
cons-empty f fs e = absurd (omega (arith, ap (λ (xs : List Frame). length xs) e))

plug-BlackRoot :
    (t : Tree) (fs : List Frame) → IsRooted fs → (fs ≡ [] → BlackRoot t) → BlackRoot (plug t fs)
plug-BlackRoot t [] h k = k refl
plug-BlackRoot t (on_left n right ∷ []) h k = h
plug-BlackRoot t (on_right n left ∷ []) h k = h
plug-BlackRoot t (f ∷ g ∷ fs) h k =
    plug-BlackRoot (under f t) (g ∷ fs) h (λ e. absurd (cons-empty g fs e))

-- A tree with these entries and a black root comes out.
abbrev pub Gives : Option Tree → List Entry → Type 0
Gives o xs = (t : Tree) × (o ≡ some t) × (flat t [] ≡ xs) × BlackRoot t

flat-recolored :
    (t : Tree) (f g : Frame) (rest : List Entry)
    → flat (recolored t f g) rest ≡ flat (under g (under f t)) rest
flat-recolored t (on_left p s) (on_left g u) rest =
    flat-colored red t _
    ∙ ap (λ x. flat t (entry p ∷ flat s (entry g ∷ x))) (flat-colored black u rest)
flat-recolored t (on_left p s) (on_right g u) rest =
    flat-colored black u _ ∙ ap (λ x. flat u (entry g ∷ x)) (flat-colored red t _)
flat-recolored t (on_right p s) (on_left g u) rest =
    ap (λ x. flat s (entry p ∷ x))
      (flat-colored red t _ ∙ ap (λ x. flat t (entry g ∷ x)) (flat-colored black u rest))
flat-recolored t (on_right p s) (on_right g u) rest =
    flat-colored black u _
    ∙ ap (λ x. flat u (entry g ∷ flat s (entry p ∷ x))) (flat-colored red t rest)

-- The rotations keep the entries and always find their nodes.
rotated-flat :
    (n : Node) (l r : Tree) (f g : Frame)
    → (t : Tree) × (rotated (node n l r) f g ≡ some t)
      × ((rest : List Entry) → flat t rest ≡ flat (under g (under f (node n l r))) rest)
      × BlackRoot t
unfolding rotated
rotated-flat n l r (on_left p s) (on_left g u) = (_, refl, λ rest. refl, refl)
rotated-flat n l r (on_left p s) (on_right g u) = (_, refl, λ rest. refl, refl)
rotated-flat n l r (on_right p s) (on_left g u) = (_, refl, λ rest. refl, refl)
rotated-flat n l r (on_right p s) (on_right g u) = (_, refl, λ rest. refl, refl)

recolored_node :
    (t : Tree) (f g : Frame) → (m : Node) × (a : Tree) × (b : Tree) × (recolored t f g ≡ node m a b)
recolored_node t f (on_left g u) = (_, _, _, refl)
recolored_node t f (on_right g u) = (_, _, _, refl)

before-under :
    (t : Tree) (f g : Frame) (fs : List Frame)
    → before fs (flat (under g (under f t)) (after fs))
      ≡ before (f ∷ g ∷ fs) (flat t (after (f ∷ g ∷ fs)))
before-under t (on_left p s) (on_left g u) fs = refl
before-under t (on_left p s) (on_right g u) fs = refl
before-under t (on_right p s) (on_left g u) fs = refl
before-under t (on_right p s) (on_right g u) fs = refl

plug-Gives :
    (t : Tree) (f : Frame) (fs : List Frame)
    → IsRooted (f ∷ fs)
    → Gives (some (plug (colored red t) (f ∷ fs))) (before (f ∷ fs) (flat t (after (f ∷ fs))))
plug-Gives t f fs root = (
  _,
  refl,
  flat-plug (colored red t) (f ∷ fs) ∙ ap (before (f ∷ fs)) (flat-colored red t (after (f ∷ fs))),
  plug-BlackRoot (colored red t) (f ∷ fs) root (λ e. absurd (cons-empty f fs e)),
)

pub rebalance-Gives :
    (n : Node) (l r : Tree) (fs : List Frame)
    → IsRooted fs
    → Gives (rebalance_after_add (node n l r) fs) (before fs (flat (node n l r) (after fs)))
unfolding rebalance_after_add
rebalance-Gives n l r [] root = (_, refl, refl, refl)
rebalance-Gives n l r (f ∷ []) root = rw root (plug-Gives (node n l r) f [] root)
rebalance-Gives n l r (f ∷ g ∷ fs) root = elim (Bool-cases (is_black (node_of f).color)) [
  | inl k ↦ rw k (plug-Gives (node n l r) f (g ∷ fs) root)
  | inr k ↦ elim (Bool-cases (is_red (sibling g))) [
    | inl q ↦
        let (m, a, b, e) = recolored_node (node n l r) f g in
        let up = rebalance-Gives m a b fs (IsRooted-tail g fs root) in
        rw (k, q, e)
          (
            up.0,
            up.1,
            up.2
                ∙ ap (before fs) (
                    ap (λ t. flat t (after fs)) (sym e)
                    ∙ flat-recolored (node n l r) f g (after fs))
                ∙ before-under (node n l r) f g fs,
            up.3,
          )
    | inr q ↦
        let (t, e, same, black_root) = rotated-flat n l r f g in
        rw (k, q, e)
          (
            _,
            refl,
            flat-plug t fs ∙ ap (before fs) (same (after fs)) ∙ before-under (node n l r) f g fs,
            plug-BlackRoot t fs (IsRooted-tail g fs root) (λ _. black_root),
          )
  ]
]
