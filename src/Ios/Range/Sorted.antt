-- ===== src/Ios/Range/Sorted.antt =====
-- Insertion (libpoke/ios-ivtree.h) against insertion into a sorted list.
use poke.Base.{ℕ, ◌≡◌, ◌⊎◌, suc, true, List, [], ◌∷◌, length, some}
use poke.Base.Int.{ℤ}
use poke.Ios.Range.{Node, Tree, leaf, node, RangeTbl}
use poke.Ios.Range.Insert.{Frame, is_black, Turn, Insertion, duplicate, grown}
use poke.Ios.Range.Entries.{BlackRoot, Entry, entry, flat, IsRooted}
use poke.Ios.Range.Order.{from, IsAfter, IsSorted, from_trans, from_same}

-- Each entry of the tree is before `e`.
abbrev pub TreeBelow : Tree → Entry → Type 0
TreeBelow leaf e = Unit
TreeBelow (node n l r) e = (from (entry n) e ≡ Turn.right) × TreeBelow l e × TreeBelow r e

pub TreeBelow-trans :
    (t : Tree) (m e : Entry) → TreeBelow t m → from m e ≡ Turn.right → TreeBelow t e
TreeBelow-trans leaf m e h k = tt
TreeBelow-trans (node n l r) m e (h, hl, hr) k =
    (from_trans (entry n) m e h k, TreeBelow-trans l m e hl k, TreeBelow-trans r m e hr k)

pub TreeBelow-same : (t : Tree) (m e : Entry) → TreeBelow t m → from m e ≡ Turn.here → TreeBelow t e
TreeBelow-same leaf m e h k = tt
TreeBelow-same (node n l r) m e (h, hl, hr) k =
    (from_same (entry n) m e h k, TreeBelow-same l m e hl k, TreeBelow-same r m e hr k)

pub IsAfter-flat : (x : Entry) (t : Tree) (zs : List Entry) → IsAfter x (flat t zs) → IsAfter x zs
IsAfter-flat x leaf zs h = h
IsAfter-flat x (node n l r) zs h = IsAfter-flat x r zs (IsAfter-flat x l _ h).1

pub IsSorted-flat : (t : Tree) (zs : List Entry) → IsSorted (flat t zs) → IsSorted zs
IsSorted-flat leaf zs h = h
IsSorted-flat (node n l r) zs h = IsSorted-flat r zs (IsSorted-flat l _ h).1

pub IsSorted-TreeBelow :
    (t : Tree) (e : Entry) (zs : List Entry) → IsSorted (flat t (e ∷ zs)) → TreeBelow t e
IsSorted-TreeBelow leaf e zs h = tt
IsSorted-TreeBelow (node n l r) e zs h =
    let tail = IsSorted-flat l (entry n ∷ flat r (e ∷ zs)) h in
    let first = (IsAfter-flat (entry n) r (e ∷ zs) tail.0).0 in
    (
      first,
      TreeBelow-trans l (entry n) e (IsSorted-TreeBelow l (entry n) (flat r (e ∷ zs)) h) first,
      IsSorted-TreeBelow r e zs tail.1,
    )

-- The node is black if it is the root, and else the root is above it and black.
abbrev IsRootedAt : Node → List Frame → Type 0
IsRootedAt n [] = is_black n.color ≡ true
IsRootedAt n (f ∷ fs) = IsRooted (f ∷ fs)

abbrev Rooted : Tree → List Frame → Type 0
Rooted leaf fs = IsRooted fs
Rooted (node n l r) fs = IsRootedAt n fs

-- The first entry is behind `e`.
abbrev IsPast : Entry → List Entry → Type 0
IsPast e [] = Unit
IsPast e (x ∷ xs) = from x e ≡ Turn.left

-- A descent that ends at a place whose entries were `xs` with `ys` in place of them.
abbrev Ends : Insertion → List Entry → List Entry → Type 0
Ends o xs ys =
    ((o ≡ duplicate) × (ys ≡ xs))
    ⊎ ((t : Tree) × (o ≡ grown (some t))
        × (flat t [] ≡ ys)
        × BlackRoot t
        × (length ys ≡ suc (length xs)))

module _ (low high : ℤ) (val : ℕ) where
  abbrev e : Entry
  e = (low, high, val)

-- The root is black, the entries are sorted, and `count` is their number.
pub record IsValid (tbl : RangeTbl) : Type 0 where
  pub black_root : BlackRoot tbl.root
  pub sorted : IsSorted (flat tbl.root [])
  pub counted : tbl.count ≡ length (flat tbl.root [])
