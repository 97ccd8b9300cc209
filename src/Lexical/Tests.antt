-- ===== src/Lexical/Tests.antt =====
-- The theorems on lexical addresses at a concrete run: `x` is declared again, with another value.
use poke.Base.{ℕ, ◌+◌, ◌<◌, ◌≡◌, refl, some, none, true, [], ◌∷◌, arith, subst, get_elem?, inl}
use poke.Pkl.Text.{streq}
use poke.Pkl.Decls.{ns_main, get_registered, find_in, hash_string}
use poke.Pkl.Env.{pkl_env_lookup, pkl_env_dup_toplevel, get_ns_table, numbered, lookup_1}
use poke.Pkl.Env.Sample.{
  x_name, x_ast, x_frame, x-IsValid, only_x, second-IsNew, twice, twice_env, second_registered,
}
use poke.Pvm.Env
use poke.Pvm.Env.{Heap, pvm_env_lookup, pvm_env_register, write, assigned}
use poke.Lexical.Mirror.{Held, Mirrors}
use poke.Lexical.Runs.{Runs, begins, variable}
use poke.Lexical.Address.{pvm_env_lookup-pkl_env_lookup, pvm_env_register_total}

abbrev value : ℕ → ℕ
value d = 100 + d

abbrev top : Env.Frame ℕ
top = record { num_vars = 1; step = 2; vars = 100 ∷ 0 ∷ []; up = none }

abbrev heap : Heap ℕ
heap = record { frame_at = λ k. top; next = 1 }

top-Held : Held value x_ast x_frame top
unfolding get_ns_table numbered
top-Held = record {
  count = refl;
  block = record { stepped = omega arith; fits = omega arith; whole = refl };
  placed = λ d i v.
      let q = (only_x ns_main d (inl i)).0 in
      subst
        (λ k. ((x_ast k).order < 1) × (get_elem? (100 ∷ 0 ∷ []) (x_ast k).order ≡ some (value k))) q
        (omega arith, refl);
}

top-Mirrors : Mirrors value x_ast heap 1 (pkl_env_dup_toplevel x_frame) (some 0)
unfolding pkl_env_dup_toplevel
top-Mirrors = (0, refl, omega arith, top-Held, refl)

-- The values of both declarations of `x`.
abbrev both : Heap ℕ
both = write heap 0 (record top { num_vars = 2; vars = 100 ∷ 101 ∷ [] })

second-Runs : Runs 0 value x_ast x_frame heap 0 twice twice_env both 0
unfolding pvm_env_register assigned pkl_env_dup_toplevel
second-Runs = variable true ns_main x_name 1 begins second-IsNew refl second_registered refl

pvm_env_lookup-pkl_env_lookup_example : pvm_env_lookup both 0 0 1 ≡ some 101
unfolding pkl_env_lookup lookup_1 get_registered find_in get_ns_table hash_string streq numbered
pvm_env_lookup-pkl_env_lookup_example =
    pvm_env_lookup-pkl_env_lookup 0 value x_ast x_frame heap 0 x-IsValid top-Mirrors twice twice_env
      both 0 second-Runs x_name 1 0 1 refl refl

pvm_env_register_total_example : (heap' : Heap ℕ) × (pvm_env_register 0 both 0 5 ≡ some heap')
pvm_env_register_total_example =
    pvm_env_register_total 0 value x_ast x_frame heap 0 x-IsValid top-Mirrors twice twice_env both 0
      second-Runs 5
