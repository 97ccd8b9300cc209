-- ===== src/Ios/Range/Tests.antt =====
-- Runs of the interval tree (libpoke/ios-ivtree.h).
use poke.Base.{false, ◌≡◌, refl, true, [], ◌∷◌, arith}
use poke.Base.Int.{pos}
use poke.Iod.{ios_ok}
use poke.Ios.Range.{black, red, Node, leaf, node, RangeTbl, visit_overlaps, ios_rangetbl_dirty}
use poke.Ios.Range.Visit.{nodes, overlapping, IsAugmented, IsOrdered, visit_overlaps-overlapping}
use poke.Ios.Range.Insert.{returned, ios_ivtree_insert, insert_at, rebalance_after_add, rotated}
use poke.Ios.Range.Dirty.{ios_rangetbl_dirty-overlapping}

abbrev from_10 : Node
from_10 = record { color = black; low = pos 10; high = pos 20; highest = pos 20; val = 1 }

abbrev one : RangeTbl
one = record { count = 1; root = node from_10 leaf leaf }

-- The interval [5, 100] on the left of [10, 20], whose mark stays at 20.
abbrev from_5 : Node
from_5 = record { color = red; low = pos 5; high = pos 100; highest = pos 100; val = 2 }

abbrev two : RangeTbl
two = record { count = 2; root = node from_10 (node from_5 leaf leaf) leaf }

inserted_two : ios_ivtree_insert true one (pos 5) (pos 100) 2 ≡ returned ios_ok two
unfolding ios_ivtree_insert insert_at rebalance_after_add
inserted_two = refl

-- The visit of [50, 60] stops at the root and misses [5, 100].
missed :
    (visit_overlaps two.root (pos 50) (pos 60) ≡ [])
    × (overlapping (nodes two.root) (pos 50) (pos 60) ≡ 2 ∷ [])
unfolding visit_overlaps
missed = (refl, refl)

-- A third interval is balanced by a rotation, which sets the marks right.
abbrev three : RangeTbl
three = record {
  count = 3;
  root =
      node (record { color = black; low = pos 5; high = pos 100; highest = pos 100; val = 2 })
        (node (record { color = red; low = pos 1; high = pos 2; highest = pos 2; val = 3 }) leaf
          leaf)
        (node (record { color = red; low = pos 10; high = pos 20; highest = pos 20; val = 1 }) leaf
          leaf);
}

inserted_three : ios_ivtree_insert true two (pos 1) (pos 2) 3 ≡ returned ios_ok three
unfolding ios_ivtree_insert insert_at rebalance_after_add rotated
inserted_three = refl

three-IsAugmented : IsAugmented three.root
three-IsAugmented = ground arith

three-IsOrdered : IsOrdered three.root
three-IsOrdered = ground arith

visit_overlaps-overlapping_example : visit_overlaps three.root (pos 15) (pos 60) ≡ 2 ∷ 1 ∷ []
visit_overlaps-overlapping_example =
    visit_overlaps-overlapping three.root (pos 15) (pos 60) three-IsAugmented three-IsOrdered

ios_rangetbl_dirty-overlapping_example :
    ios_rangetbl_dirty three (pos 15) (pos 60) (λ v. false) 1 ≡ true
ios_rangetbl_dirty-overlapping_example =
    ios_rangetbl_dirty-overlapping three (pos 15) (pos 60) (λ v. false) 1 three-IsAugmented
      three-IsOrdered
