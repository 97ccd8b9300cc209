-- ===== src/Pkl/Env/Iter.antt =====
-- libpoke/pkl-env.c: the iterator over the declarations of the main namespace.
pub mod Visits
mod Tests
use poke.Base.{
  ℕ, zero, suc, ◌+◌, ◌-◌, ◌≡◌, Bool, true, false, leb, if◌then◌else◌, List, [], ◌∷◌, ◌++◌, Option,
  none, some, take, ◌||◌,
}
use poke.Pkl.Text.{Text, streq, dollar_of}
use poke.Pkl.Decls.{Kind, var_kind, type_kind, func_kind, unit_kind, Ast, Frame, hash_table_size}

-- `struct pkl_ast_node_iter`; a node is given with those behind it in its chain.
pub record Iter : Type 0 where
  pub bucket : ℕ
  pub node : List ℕ

abbrev has_dollar : Option Text → Bool
has_dollar none = false
has_dollar (some s) = true

unfoldable pub decl_redefined_p : Ast → ℕ → Bool
unfolding dollar_of
decl_redefined_p ast d = has_dollar (dollar_of (ast d).name)

-- The test of the two loops.
unfoldable pub passed_over : Ast → List ℕ → Bool
passed_over ast [] = true
passed_over ast (d ∷ chain) = decl_redefined_p ast d

-- The loop of `pkl_env_iter_begin` and `pkl_env_iter_next`, in as many rounds as there are buckets from
-- this one on.
unfoldable pub skip : (rounds : ℕ) → Ast → Frame → Iter → Iter
skip zero ast frame iter = iter
skip (suc rounds) ast frame iter =
    let bucket = iter.bucket + 1 in
    let rest = skip rounds ast frame (record { bucket = bucket; node = frame.hash_table bucket }) in
    let step =
      if leb hash_table_size bucket then record { bucket = bucket; node = iter.node } else rest in
    if passed_over ast iter.node then step else iter

unfoldable pub pkl_env_iter_begin : Ast → Frame → Iter
unfolding skip passed_over decl_redefined_p
pkl_env_iter_begin ast frame =
    skip hash_table_size ast frame (record { bucket = 0; node = frame.hash_table 0 })

-- `none` is a failed assertion.
unfoldable pub pkl_env_iter_next : Ast → Frame → Iter → Option Iter
unfolding skip passed_over decl_redefined_p
pkl_env_iter_next ast frame iter = elim iter.node [
  | [] ↦ none
  | d ∷ chain ↦ some (
      skip (hash_table_size - iter.bucket) ast frame
        (record { bucket = iter.bucket; node = chain }))
]

unfoldable pub pkl_env_iter_end : Iter → Bool
pkl_env_iter_end iter = leb hash_table_size iter.bucket

-- `what`, where PKL_AST_DECL_KIND_ANY is `none`.
abbrev pub wanted : Option Kind → Kind → Bool
wanted none kind = true
wanted (some var_kind) var_kind = true
wanted (some type_kind) type_kind = true
wanted (some func_kind) func_kind = true
wanted (some unit_kind) unit_kind = true
wanted (some _) _ = false

abbrev pub called : Ast → Option Kind → ℕ → List ℕ → List ℕ
called ast what d rest = if wanted what (ast d).kind then d ∷ rest else rest

-- The declarations that the loop of `pkl_env_map_decls` calls the function on, in `fuel` rounds at most.
unfoldable pub map_from : (fuel : ℕ) → Ast → Frame → Option Kind → Iter → Option (List ℕ)
map_from zero ast frame what iter = none
map_from (suc fuel) ast frame what iter =
    let more : Option (List ℕ) = elim iter.node [
      | [] ↦ none
      | d ∷ chain ↦ elim (pkl_env_iter_next ast frame iter) [
        | none ↦ none
        | some iter' ↦ elim (map_from fuel ast frame what iter') [
          | none ↦ none
          | some rest ↦ some (called ast what d rest)
        ]
      ]
    ] in
    if pkl_env_iter_end iter then some [] else more

unfoldable pub pkl_env_map_decls : (fuel : ℕ) → Ast → Frame → Option Kind → Option (List ℕ)
unfolding map_from pkl_env_iter_begin
pkl_env_map_decls fuel ast frame what = map_from fuel ast frame what (pkl_env_iter_begin ast frame)

-- The loop of `pkl_env_get_next_matching_decl`: the name found, or NULL (the inner `none`), with the
-- iterator where it stops. `strncmp` compares `len` characters at most.
unfoldable pub next_matching :
    (fuel : ℕ) → Ast → Frame → Iter → Text → (len : ℕ) → Option (Option Text × Iter)
next_matching zero ast frame iter name len = none
next_matching (suc fuel) ast frame iter name len =
    let more : Option (Option Text × Iter) = elim iter.node [
      | [] ↦ none
      | d ∷ chain ↦ elim (streq (take len (ast d).name) (take len name)) [
        | true ↦ some (some (ast d).name, iter)
        | false ↦ elim (pkl_env_iter_next ast frame iter) [
          | none ↦ none
          | some iter' ↦ next_matching fuel ast frame iter' name len
        ]
      ]
    ] in
    if pkl_env_iter_end iter then some (none, iter) else more
