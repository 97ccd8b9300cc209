-- ===== src/Ios/Range/Order.antt =====
-- The entries of the interval tree (libpoke/ios-ivtree.h) in their order, and insertion into a sorted
-- list of them.
use poke.Base.{◌≡◌, ◌⊎◌, refl, arith, inl, inr, List, [], ◌∷◌}
use poke.Ios.Range.Insert.{Turn, turn_at, along}
use poke.Ios.Range.Entries.{Entry}

-- Which way from `x` the entry `e` lies.
abbrev pub from : Entry → Entry → Turn
from x e = turn_at x.0 x.2 e.0 e.2

-- An entry whose start and payload are there already is not added.
abbrev pub insert_entry : Entry → List Entry → List Entry
insert_entry e [] = e ∷ []
insert_entry e (x ∷ xs) =
    let later = insert_entry e xs in along (from x e) (e ∷ x ∷ xs) (x ∷ later) (x ∷ xs)

abbrev pub IsAfter : Entry → List Entry → Type 0
IsAfter x [] = Unit
IsAfter x (y ∷ ys) = (from x y ≡ Turn.right) × IsAfter x ys

-- In the order of the starts, and of the payloads for equal starts.
abbrev pub IsSorted : List Entry → Type 0
IsSorted [] = Unit
IsSorted (x ∷ xs) = IsAfter x xs × IsSorted xs

pub from_trans :
    (x y z : Entry) → from x y ≡ Turn.right → from y z ≡ Turn.right → from x z ≡ Turn.right
from_trans (xl, xh, xv) (yl, yh, yv) (zl, zh, zv) h k = ground arith

pub from_same :
    (x y z : Entry) → from x y ≡ Turn.right → from y z ≡ Turn.here → from x z ≡ Turn.right
from_same (xl, xh, xv) (yl, yh, yv) (zl, zh, zv) h k = ground arith

pub from_flip : (x y : Entry) → from x y ≡ Turn.left → from y x ≡ Turn.right
from_flip (xl, xh, xv) (yl, yh, yv) h = ground arith

pub Turn-cases : (t : Turn) → (t ≡ Turn.left) ⊎ (t ≡ Turn.right) ⊎ (t ≡ Turn.here)
Turn-cases Turn.left = inl refl
Turn-cases Turn.right = inr (inl refl)
Turn-cases Turn.here = inr (inr refl)

pub IsAfter-insert_entry :
    (x e : Entry) (xs : List Entry)
    → from x e ≡ Turn.right
    → IsAfter x xs
    → IsAfter x (insert_entry e xs)
IsAfter-insert_entry x e [] k h = (k, tt)
IsAfter-insert_entry x e (y ∷ ys) k (h, hs) = elim (Turn-cases (from y e)) [
  | inl q ↦ rw q (k, (h, hs))
  | inr (inl q) ↦ rw q (h, IsAfter-insert_entry x e ys k hs)
  | inr (inr q) ↦ rw q (h, hs)
]

pub IsAfter-trans :
    (x y : Entry) (ys : List Entry) → from x y ≡ Turn.right → IsAfter y ys → IsAfter x ys
IsAfter-trans x y [] k h = tt
IsAfter-trans x y (z ∷ zs) k (h, hs) = (from_trans x y z k h, IsAfter-trans x y zs k hs)

-- Insertion keeps a list sorted.
pub insert_entry-IsSorted :
    (e : Entry) (xs : List Entry) → IsSorted xs → IsSorted (insert_entry e xs)
insert_entry-IsSorted e [] h = (tt, tt)
insert_entry-IsSorted e (x ∷ xs) (h, hs) = elim (Turn-cases (from x e)) [
  | inl q ↦ let flip = from_flip x e q in rw q ((flip, IsAfter-trans e x xs flip h), (h, hs))
  | inr (inl q) ↦ rw q (IsAfter-insert_entry x e xs q h, insert_entry-IsSorted e xs hs)
  | inr (inr q) ↦ rw q (h, hs)
]

pub from_left :
    (x y e : Entry) → from x e ≡ Turn.left → from x y ≡ Turn.right → from y e ≡ Turn.left
from_left (xl, xh, xv) (yl, yh, yv) (el, eh, ev) h k = ground arith
