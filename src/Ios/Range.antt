-- ===== src/Ios/Range.antt =====
-- libpoke/ios-range.c and libpoke/ios-ivtree.h: the table of the values mapped in an IO space.
pub mod Visit
pub mod Insert
pub mod Entries
pub mod Order
pub mod Dirty
pub mod Sorted
pub mod Lookup
mod Tests
use poke.Base.{ℕ, Bool, ◌&&◌, ◌||◌, ◌==◌, if◌then◌else◌, List, [], ◌∷◌, ◌++◌}
use poke.Base.Int.{ℤ, ltb_ℤ, leb_ℤ}

-- `enum color`
pub data Color : Type 0 where
  black red : Color

-- The fields of `struct NODE_IMPL` other than the links. `val` is the payload, a `pvm_val`.
pub record Node : Type 0 where
  pub color : Color
  pub low : ℤ
  pub high : ℤ
  pub highest : ℤ
  pub val : ℕ

-- A node with its `left` and `right`; `leaf` is NULL. A link to the parent is the place in the tree.
pub data Tree : Type 0 where
  leaf : Tree
  node : Node → Tree → Tree → Tree

-- `struct ios_rangetbl`
pub record RangeTbl : Type 0 where
  pub count : ℕ
  pub root : Tree

abbrev pub overlaps : Node → ℤ → ℤ → Bool
overlaps n low high = leb_ℤ n.low high && leb_ℤ low n.high

-- The payloads that `fn` is called on, in the order of the calls.
unfoldable pub visit_overlaps : Tree → ℤ → ℤ → List ℕ
visit_overlaps leaf low high = []
visit_overlaps (node n left right) low high =
    let on_left = visit_overlaps left low high in
    let here = if overlaps n low high then n.val ∷ [] else [] in
    let on_right = visit_overlaps right low high in
    if ltb_ℤ n.highest low
    then []
    else on_left ++ (here ++ (if ltb_ℤ high n.low then [] else on_right))

unfoldable pub visit_all : Tree → List ℕ
visit_all leaf = []
visit_all (node n left right) = n.val ∷ visit_all left ++ visit_all right

-- `mark_dirty`. The flag PVM_VAL_DIRTY_P of the values is a function of them.
abbrev pub mark_dirty : ℕ → (ℕ → Bool) → ℕ → Bool
mark_dirty val dirty v = (v == val) || dirty v

-- `fn` called on each payload in turn.
unfoldable pub mark_each : List ℕ → (ℕ → Bool) → ℕ → Bool
mark_each [] dirty = dirty
mark_each (val ∷ vals) dirty = mark_each vals (mark_dirty val dirty)

abbrev pub ios_rangetbl_dirty : RangeTbl → ℤ → ℤ → (ℕ → Bool) → ℕ → Bool
ios_rangetbl_dirty tbl begin end = mark_each (visit_overlaps tbl.root begin end)

abbrev pub ios_rangetbl_dirty_all : RangeTbl → (ℕ → Bool) → ℕ → Bool
ios_rangetbl_dirty_all tbl = mark_each (visit_all tbl.root)
