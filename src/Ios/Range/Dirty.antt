-- ===== src/Ios/Range/Dirty.antt =====
-- Which values `ios_rangetbl_dirty` (libpoke/ios-range.c) marks.
use poke.Base.{ℕ, ◌≡◌, refl, ◌∙◌, ap, Bool, false, ◌||◌, ◌==◌, List, [], ◌∷◌, Bool-cases, inl, inr}
use poke.Base.Int.{ℤ}
use poke.Ios.Range.{RangeTbl, visit_overlaps, mark_dirty, mark_each, ios_rangetbl_dirty}
use poke.Ios.Range.Visit.{nodes, overlapping, IsAugmented, IsOrdered, visit_overlaps-overlapping}

abbrev pub listed : ℕ → List ℕ → Bool
listed v [] = false
listed v (x ∷ xs) = (v == x) || listed v xs

mark_each-listed :
    (vals : List ℕ) (dirty : ℕ → Bool) (v : ℕ) → mark_each vals dirty v ≡ (listed v vals || dirty v)
unfolding mark_each
mark_each-listed [] dirty v = refl
mark_each-listed (x ∷ xs) dirty v =
    mark_each-listed xs (mark_dirty x dirty) v ∙ (elim (Bool-cases (v == x)) [
      | inl h ↦ elim (Bool-cases (listed v xs)) [ inl q ↦ rw (h, q) | inr q ↦ rw (h, q) ]
      | inr h ↦ elim (Bool-cases (listed v xs)) [ inl q ↦ rw (h, q) | inr q ↦ rw (h, q) ]
    ])

-- With an ordered tree whose high-water marks cover it, once a range is marked a value is dirty if it
-- was, or if it is the payload of a node whose interval overlaps the range, and else it is not.
pub ios_rangetbl_dirty-overlapping :
    (tbl : RangeTbl) (begin end : ℤ) (dirty : ℕ → Bool) (v : ℕ)
    → IsAugmented tbl.root
    → IsOrdered tbl.root
    → ios_rangetbl_dirty tbl begin end dirty v
      ≡ (listed v (overlapping (nodes tbl.root) begin end) || dirty v)
ios_rangetbl_dirty-overlapping tbl begin end dirty v a o =
    mark_each-listed (visit_overlaps tbl.root begin end) dirty v
    ∙ ap (λ xs. listed v xs || dirty v) (visit_overlaps-overlapping tbl.root begin end a o)
