-- ===== src/Ios/Range/Insert.antt =====
-- Insertion into the interval tree of libpoke/ios-ivtree.h. The place of a node, which the code finds
-- by its `parent` links, is the list of the frames above it, the innermost one first.
use mathlib.Core.Bool.{not}
use poke.Base.{
  ℕ, ◌+◌, ◌==◌, ltb, if◌then◌else◌, Bool, true, false, List, [], ◌∷◌, Option, none, some,
}
use poke.Base.Int.{ℤ, ltb_ℤ}
use poke.Iod.{ios_ok, ios_enomem}
use poke.Ios.Range.{Color, black, red, Node, Tree, leaf, node, RangeTbl}

-- A node above, whose other child is given: `on_left` is above its left child.
pub data Frame : Type 0 where
  on_left : Node → Tree → Frame
  on_right : Node → Tree → Frame

abbrev pub node_of : Frame → Node
node_of (on_left n right) = n
node_of (on_right n left) = n

abbrev pub is_black : Color → Bool
is_black black = true
is_black red = false

abbrev pub is_red : Tree → Bool
is_red leaf = false
is_red (node n left right) = not (is_black n.color)

abbrev pub colored : Color → Tree → Tree
colored c leaf = leaf
colored c (node n left right) = node (record n { color = c }) left right

-- `n` above `t`.
abbrev pub under : Frame → Tree → Tree
under (on_left n right) t = node n t right
under (on_right n left) t = node n left t

-- The whole tree.
abbrev pub plug : Tree → List Frame → Tree
plug t [] = t
plug t (f ∷ fs) = plug (under f t) fs

-- The higher one of `hw` and the mark of a child.
abbrev pub raised : ℤ → Tree → ℤ
raised hw leaf = hw
raised hw (node n left right) = if ltb_ℤ hw n.highest then n.highest else hw

-- The node with its mark set from its interval and its children.
abbrev pub recalc_highest : Node → Tree → Tree → Node
recalc_highest n left right = record n { highest = raised (raised n.high left) right }

-- `b` over `a` and `d`, which is over `c` and `e`, becomes `d` over `b` and `e`.
abbrev pub rotate_left : Node → Tree → Node → Tree → Tree → Tree
rotate_left b a d c e =
    let low = node (recalc_highest b a c) a c in node (recalc_highest d low e) low e

-- `d` over `b`, which is over `a` and `c`, and `e` becomes `b` over `a` and `d`.
abbrev pub rotate_right : Node → Tree → Tree → Node → Tree → Tree
rotate_right b a c d e =
    let low = node (recalc_highest d c e) c e in node (recalc_highest b a low) a low

abbrev pub with_color : Color → Node → Node
with_color c n = record n { color = c }

-- The rotations for `t` under `f` under `g`. `none` is a use of NULL.
unfoldable pub rotated : Tree → Frame → Frame → Option Tree
rotated t (on_left p s) (on_left g u) =
    some (rotate_right (with_color black p) (colored red t) s (with_color red g) u)
rotated leaf (on_right p s) (on_left g u) = none
rotated (node n left right) (on_right p s) (on_left g u) =
    elim (rotate_left (with_color red p) s (with_color black n) left right) [
      | leaf ↦ none
      | node m low high ↦ some (rotate_right m low high (with_color red g) u)
    ]
rotated t (on_right p s) (on_right g u) =
    some (rotate_left (with_color red g) u (with_color black p) s (colored red t))
rotated leaf (on_left p s) (on_right g u) = none
rotated (node n left right) (on_left p s) (on_right g u) =
    elim (rotate_right (with_color black n) left right (with_color red p) s) [
      | leaf ↦ none
      | node m low high ↦ some (rotate_left (with_color red g) u m low high)
    ]

-- The grandparent once it takes over the red of its children.
abbrev pub recolored : Tree → Frame → Frame → Tree
recolored t f (on_left g u) =
    node (with_color red g) (colored black (under f (colored red t))) (colored black u)
recolored t f (on_right g u) =
    node (with_color red g) (colored black u) (colored black (under f (colored red t)))

abbrev pub sibling : Frame → Tree
sibling (on_left n right) = right
sibling (on_right n left) = left

abbrev pub plugged : Option Tree → List Frame → Option Tree
plugged none fs = none
plugged (some t) fs = some (plug t fs)

-- The tree once `t`, whose root is not colored yet, is balanced in its place.
unfoldable pub rebalance_after_add : Tree → List Frame → Option Tree
unfolding rotated
rebalance_after_add t [] = some (colored black t)
rebalance_after_add t (f ∷ []) =
    if is_black (node_of f).color then some (plug (colored red t) (f ∷ [])) else none
rebalance_after_add t (f ∷ g ∷ fs) =
    let up = rebalance_after_add (recolored t f g) fs in
    if is_black (node_of f).color
    then some (plug (colored red t) (f ∷ g ∷ fs))
    else if is_red (sibling g)
    then up
    else plugged (rotated t f g) fs

abbrev pub interval_mknode : ℤ → ℤ → ℕ → Node
interval_mknode low high val = record {
  color = red;
  low = low;
  high = high;
  highest = high;
  val = val;
}

-- Which way the descent goes at a node; `here` is the same interval start and payload.
pub data Turn : Type 0 where
  left right here : Turn

abbrev pub turn_at : (node_low : ℤ) → (node_val : ℕ) → ℤ → ℕ → Turn
turn_at node_low node_val low val =
    if ltb_ℤ low node_low
    then Turn.left
    else if ltb_ℤ node_low low
    then Turn.right
    else if ltb node_val val
    then Turn.right
    else if node_val == val
    then Turn.here
    else Turn.left

abbrev pub along {ℓ} : {A : Type ℓ} → Turn → A → A → A → A
along Turn.left x y z = x
along Turn.right x y z = y
along Turn.here x y z = z

-- `duplicate` changes nothing; `grown` is the new tree.
pub data Insertion : Type 0 where
  duplicate : Insertion
  no_memory : Insertion
  grown : Option Tree → Insertion

-- The descent from a node in its place. `allocated` tells whether there is memory.
unfoldable pub insert_at : Bool → ℤ → ℤ → ℕ → Tree → List Frame → Insertion
unfolding rebalance_after_add
insert_at allocated low high val leaf fs =
    if allocated
    then grown (rebalance_after_add (node (interval_mknode low high val) leaf leaf) fs)
    else no_memory
insert_at allocated low high val (node n l r) fs =
    let on_the_left = insert_at allocated low high val l (on_left n r ∷ fs) in
    let on_the_right = insert_at allocated low high val r (on_right n l ∷ fs) in
    along (turn_at n.low n.val low val) on_the_left on_the_right duplicate

-- `abort` is the use of NULL.
pub data InsertResult : Type 0 where
  returned : ℕ → RangeTbl → InsertResult
  abort : InsertResult

abbrev pub inserted : RangeTbl → Insertion → InsertResult
inserted tbl duplicate = returned ios_ok tbl
inserted tbl no_memory = returned ios_enomem tbl
inserted tbl (grown none) = abort
inserted tbl (grown (some t)) = returned ios_ok (record { count = tbl.count + 1; root = t })

abbrev pub first_node : Node → RangeTbl
first_node n = record { count = 1; root = node (with_color black n) leaf leaf }

unfoldable pub ios_ivtree_insert : Bool → RangeTbl → ℤ → ℤ → ℕ → InsertResult
unfolding insert_at
ios_ivtree_insert allocated tbl low high val = elim tbl.root [
  | leaf ↦
      if allocated
      then returned ios_ok (first_node (interval_mknode low high val))
      else returned ios_enomem tbl
  | node n l r ↦ inserted tbl (insert_at allocated low high val (node n l r) [])
]

-- The node with this start and payload.
unfoldable pub ios_ivtree_lookup : Tree → ℤ → ℕ → Option Node
ios_ivtree_lookup leaf offs val = none
ios_ivtree_lookup (node n l r) offs val =
    let on_the_left = ios_ivtree_lookup l offs val in
    let on_the_right = ios_ivtree_lookup r offs val in
    along (turn_at n.low n.val offs val) on_the_left on_the_right (some n)
