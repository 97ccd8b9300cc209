-- ===== src/Pkl/Env/Tests.antt =====
-- Runs of the compile-time environment, and the theorems at concrete inputs.
use poke.Base.{ℕ, ◌≡◌, ◌↔◌, ◌⊎◌, refl, true, false, [], ◌∷◌, some}
use poke.Pkl.Text.{streq, dollar_of}
use poke.Pkl.Decls.{Ast, Env, ns_main, get_registered, find_in, hash_string}
use poke.Pkl.Env.{
  registered, rejected, pkl_env_register, register_decl, make_way, get_ns_table, numbered,
  pkl_env_lookup, lookup_1, pkl_env_lookup_type, pkl_env_lookup_var, pkl_env_dup_toplevel, is_empty,
}
use poke.Pkl.Env.Rename.{pkl_env_free}
use poke.Pkl.Env.Valid.{IsValid, pkl_env_register-IsValid, pkl_env_register-rejected}
use poke.Pkl.Env.Lookup.{pkl_env_lookup-register}
use poke.Pkl.Env.Undo.{here, next, declares, pkl_env_free-Compiles}
use poke.Pkl.Env.Sample.{
  x_name, x_ast, x_frame, x-IsValid, second-IsNew, twice, twice_env, second_registered,
}

hash_x : hash_string x_name ≡ 733
unfolding hash_string
hash_x = refl

found_second : pkl_env_lookup twice twice_env ns_main x_name ≡ some (1, 0, 1)
unfolding pkl_env_lookup lookup_1 get_registered find_in get_ns_table hash_string streq numbered
found_second = refl

rejected_inside : pkl_env_register true x_ast (x_frame ∷ x_frame ∷ []) ns_main x_name 1 ≡ rejected
unfolding pkl_env_register register_decl make_way get_registered find_in get_ns_table hash_string
    streq
rejected_inside = refl

pkl_env_register-IsValid_example :
    (pkl_env_register true x_ast (x_frame ∷ []) ns_main x_name 1 ≡ rejected)
    ⊎ ((ast' : Ast) × (env' : Env) × (pkl_env_register true x_ast (x_frame ∷ []) ns_main x_name 1
          ≡ registered (ast', env'))
        × IsValid ast' env')
pkl_env_register-IsValid_example =
    pkl_env_register-IsValid true x_ast x_frame [] ns_main x_name 1 x-IsValid second-IsNew

pkl_env_register-rejected_example :
    (pkl_env_register false x_ast (x_frame ∷ []) ns_main x_name 1 ≡ rejected) ↔ (
      (found : ℕ) × (get_registered x_ast (get_ns_table x_frame ns_main) x_name ≡ some found)
      × ((is_empty [] ≡ false) ⊎ ((x_ast found).immutable_p ≡ true) ⊎ (false ≡ false)))
pkl_env_register-rejected_example =
    pkl_env_register-rejected false x_ast x_frame [] ns_main x_name 1 x-IsValid second-IsNew

pkl_env_lookup-register_example : pkl_env_lookup twice twice_env ns_main x_name ≡ some (1, 0, 1)
unfolding numbered dollar_of streq
pkl_env_lookup-register_example =
    pkl_env_lookup-register true x_ast x_frame [] ns_main x_name 1 x-IsValid second-IsNew
      second_registered ns_main x_name refl

pkl_env_free-Compiles_example :
    (ast₁ : Ast) × (pkl_env_free twice twice_env ≡ some ast₁)
    × (get_registered ast₁ x_frame.hash_table x_name
        ≡ get_registered x_ast x_frame.hash_table x_name)
    × (pkl_env_lookup_type ast₁ (x_frame ∷ []) x_name
        ≡ pkl_env_lookup_type x_ast (x_frame ∷ []) x_name)
    × (pkl_env_lookup_var ast₁ (x_frame ∷ []) x_name
        ≡ pkl_env_lookup_var x_ast (x_frame ∷ []) x_name)
unfolding pkl_env_dup_toplevel
pkl_env_free-Compiles_example =
    pkl_env_free-Compiles x_ast x_frame x-IsValid twice twice_env
      (next here (declares true ns_main x_name 1 second-IsNew second_registered)) x_frame.hash_table
      (x_frame ∷ []) x_name
