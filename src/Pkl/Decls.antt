-- ===== src/Pkl/Decls.antt =====
-- libpoke/pkl-env.c: the declarations, the frames that hold them, and their hash tables.
use poke.Base.{
  ℕ, ◌+◌, ◌-◌, ◌*◌, ◌%◌, ◌^◌, Bool, ltb, ◌==◌, if◌then◌else◌, List, [], ◌∷◌, ◌++◌, Option, none,
  some, bit_and, length,
}
use poke.Pkl.Text.{Text, streq, dollar_of, decimal, atoi}

-- PKL_AST_DECL_KIND
pub data Kind : Type 0 where
  var_kind type_kind func_kind unit_kind : Kind

-- PKL_ENV_NS_MAIN and PKL_ENV_NS_UNITS
pub data Namespace : Type 0 where
  ns_main ns_units : Namespace

-- The fields of a declaration node of the AST that the environment uses. Nodes are named by numbers;
-- CHAIN2 and `redecl_chain` are in the lists of nodes that they link.
pub record Decl : Type 0 where
  pub kind : Kind
  pub name : Text
  pub initial : ℕ
  pub prev_decl : Option ℕ
  pub order : ℕ
  pub immutable_p : Bool

-- The declaration nodes, which are shared by all the environments that hold them.
abbrev pub Ast : Type 0
Ast = ℕ → Decl

abbrev pub write : Ast → ℕ → Decl → Ast
write ast d new k = if k == d then new else ast k

abbrev pub hash_table_size : ℕ
hash_table_size = 1008

-- `pkl_hash`: the chain of each bucket, through CHAIN2.
abbrev pub Hash : Type 0
Hash = ℕ → List ℕ

-- One frame, `struct pkl_env` without its link.
pub record Frame : Type 0 where
  pub hash_table : Hash
  pub units_hash_table : Hash
  pub redecls : List ℕ
  pub num_types : ℕ
  pub num_vars : ℕ
  pub num_units : ℕ

-- `pkl_env`: a frame and those that `up` leads to; NULL is the empty list.
abbrev pub Env : Type 0
Env = List Frame

-- `(unsigned) (name[i])`, where `char` is signed.
abbrev pub unsigned_char : ℕ → ℕ
unsigned_char c = if ltb c 128 then c else c + (2 ^ 32 - 256)

-- The loop of `hash_string`, on the 32 bits of `hash`.
unfoldable pub hash_loop : ℕ → Text → ℕ
hash_loop hash [] = hash
hash_loop hash (c ∷ s) = hash_loop ((hash * 613 + unsigned_char c) % 2 ^ 32) s

unfoldable pub hash_string : Text → ℕ
unfolding hash_loop
hash_string name = bit_and (hash_loop (length name % 2 ^ 32) name) (2 ^ 30 - 1) % hash_table_size

-- The loop of `get_registered`.
unfoldable pub find_in : Ast → Text → List ℕ → Option ℕ
find_in ast name [] = none
find_in ast name (t ∷ chain) = if streq (ast t).name name then some t else find_in ast name chain

unfoldable pub get_registered : Ast → Hash → Text → Option ℕ
get_registered ast table name =
    if streq name [] then none else find_in ast name (table (hash_string name))

-- The part of `pkl_ast_rename_decl` that concerns the declaration.
abbrev pub rename_decl : Ast → ℕ → Text → Ast
rename_decl ast d name = write ast d (record (ast d) { name = name })

-- The name of a declaration that its next redefinition gives it.
abbrev pub generation_name : Text → ℕ → Text
generation_name name generation = name ++ (b'$' ∷ decimal generation)

-- The generation that the name of a previous declaration holds. `none` is a failed assertion.
unfoldable pub generation_in : Text → Option ℕ
generation_in name = elim (dollar_of name) [
  | none ↦ none
  | some s ↦ elim s [
    | [] ↦ none
    | c ∷ generation_str ↦ if atoi generation_str == 0 then none else some (atoi generation_str)
  ]
]

unfoldable pub generation_of : Ast → ℕ → Option ℕ
generation_of ast found = elim ((ast found).prev_decl) [
  | none ↦ some 0
  | some prev ↦ generation_in (ast prev).name
]
