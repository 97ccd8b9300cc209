-- ===== src/Ios/Range/Lookup.antt =====
-- `ios_ivtree_lookup` (libpoke/ios-ivtree.h) against a search of the sorted entries.
use poke.Base.{List, [], ◌∷◌, Option, none, some}
use poke.Ios.Range.{Node}
use poke.Ios.Range.Insert.{along}
use poke.Ios.Range.Entries.{Entry, entry}
use poke.Ios.Range.Order.{from}

-- The first entry with the start and payload of `e`.
abbrev pub find_entry : Entry → List Entry → Option Entry
find_entry e [] = none
find_entry e (x ∷ xs) = let later = find_entry e xs in along (from x e) later later (some x)

abbrev pub entry_of : Option Node → Option Entry
entry_of none = none
entry_of (some n) = some (entry n)
