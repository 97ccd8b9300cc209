-- ===== src/Pkl/Env/Iter/Visits.antt =====
-- Which declarations the iterator (libpoke/pkl-env.c) visits.
use poke.Base.{ℕ, zero, suc, ◌+◌, ◌-◌, ◌≤◌, ◌≡◌, if◌then◌else◌, List, [], ◌∷◌, ◌++◌, Option}
use poke.Pkl.Decls.{Kind, Ast, Frame, hash_table_size}
use poke.Pkl.Env.Iter.{Iter, decl_redefined_p, called}

module _ (ast : Ast) (frame : Frame) where
  -- A chain up to its first redefined declaration.
  abbrev pub visible : List ℕ → List ℕ
  visible [] = []
  visible (d ∷ chain) = if decl_redefined_p ast d then [] else d ∷ visible chain

  -- What is visible in the next `n` buckets after one.
  abbrev pub visible_after : (n bucket : ℕ) → List ℕ
  visible_after zero bucket = []
  visible_after (suc n) bucket =
      visible (frame.hash_table (bucket + 1)) ++ visible_after n (bucket + 1)

  -- The iterator stands before these declarations.
  data At : Iter → List ℕ → Type 0 where
    done : {iter : Iter} → hash_table_size ≤ iter.bucket → At iter []
    before :
        (n bucket d : ℕ) (chain : List ℕ)
        → bucket + n + 1 ≡ hash_table_size
        → At
            (record { bucket = bucket; node = d ∷ chain })
            (d ∷ (visible chain ++ visible_after n bucket))

  abbrev at : ℕ → List ℕ → Iter
  at bucket chain = record { bucket = bucket; node = chain }

  -- The declarations that are asked for, of those.
  abbrev pub chosen : Option Kind → List ℕ → List ℕ
  chosen what [] = []
  chosen what (d ∷ ds) = called ast what d (chosen what ds)

  -- Over all the buckets.
  abbrev pub all_visible : List ℕ
  all_visible = visible (frame.hash_table 0) ++ visible_after (hash_table_size - 1) 0
