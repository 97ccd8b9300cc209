-- ===== src/Pkl/Env/Iter/Tests.antt =====
-- A run of the iterator: a declaration behind a redefined one is not visited.
use poke.Base.{ℕ, ◌≡◌, refl, some, none, [], ◌∷◌, ◌==◌, if◌then◌else◌, List, false}
use poke.Pkl.Decls.{Ast, Frame, var_kind}
use poke.Pkl.Env.{new_frame}
use poke.Pkl.Env.Iter.{pkl_env_map_decls, pkl_env_iter_next, pkl_env_iter_end}

-- `x` is defined twice, and `o` before it; `u` has a bucket of its own.
abbrev named : List ℕ → Ast
named name k = record {
  kind = var_kind;
  name = if k == 1 then b'x' ∷ b'$' ∷ b'1' ∷ [] else name;
  initial = k;
  prev_decl = none;
  order = k;
  immutable_p = false;
}

abbrev decls : Ast
decls = named (b'o' ∷ [])

abbrev table : ℕ → List ℕ
table h = if h == 733 then 2 ∷ 1 ∷ 0 ∷ [] else if h == 730 then 3 ∷ [] else []

abbrev full : Frame
full = record new_frame { hash_table = table; num_vars = 4 }

visited : pkl_env_map_decls 5 decls full none ≡ some (3 ∷ 2 ∷ [])
unfolding pkl_env_map_decls pkl_env_iter_next pkl_env_iter_end
visited = refl
