-- ===== src/Pkl/Env/Sample.antt =====
-- A small environment for the tests: a variable `x` and its redefinition, and a type `t`.
use poke.Base.{
  ℕ, ◌+◌, ◌^◌, ◌<◌, ◌≡◌, refl, sym, ◌∙◌, ap, ◌==◌, true, false, if◌then◌else◌, [], ◌∷◌, none, some,
  arith, Bool-cases, inl, inr,
}
use poke.Pkl.Text.{Text, streq, dollar_of, decimal_in}
use poke.Pkl.Decls.{
  write, rename_decl, Kind, var_kind, type_kind, Namespace, ns_main, ns_units, Ast, Decl, Frame,
  Env, get_registered, find_in, hash_string, generation_of,
}
use poke.Pkl.Env.{
  ordered, replaced, registered, pkl_env_new, pkl_env_register, register_decl, make_way, redefine,
  get_ns_table, set_ns_table, numbered,
}
use poke.Pkl.Env.Valid.{IsValid, IsNew, In, InEnv, namespace_of}

abbrev pub x_name : Text
x_name = b'x' ∷ []

abbrev pub t_name : Text
t_name = b't' ∷ []

abbrev decl : Kind → Text → ℕ → Decl
decl kind name initial = record {
  kind = kind;
  name = name;
  initial = initial;
  prev_decl = none;
  order = 0;
  immutable_p = false;
}

-- The declarations as the parser makes them.
abbrev pub parsed : Ast
parsed k = if k == 2 then decl type_kind t_name 12 else decl var_kind x_name (10 + k)

-- The state with `x` registered.
abbrev pub x_ast : Ast
x_ast = write parsed 0 (record (parsed 0) { order = 0 })

abbrev pub x_frame : Frame
x_frame = record {
  hash_table = λ h. if h == hash_string x_name then 0 ∷ [] else [];
  units_hash_table = λ h. [];
  redecls = [];
  num_types = 0;
  num_vars = 1;
  num_units = 0;
}

pub x_registered :
    pkl_env_register true parsed pkl_env_new ns_main x_name 0 ≡ registered (x_ast, x_frame ∷ [])
unfolding pkl_env_register register_decl make_way get_registered find_in get_ns_table set_ns_table
    numbered hash_string streq
x_registered = refl

pub only_x : (ns : Namespace) (t : ℕ) → InEnv (x_frame ∷ []) ns t → (0 ≡ t) × (ns ≡ ns_main)
unfolding get_ns_table
only_x ns_units t i = elim i [ inl j ↦ absurd j.1 | inr j ↦ absurd j ]
only_x ns_main t i = elim i [
  | inr j ↦ absurd j
  | inl (h, j) ↦ elim (Bool-cases (h == hash_string x_name)) [
    | inl e ↦ let k : In t (0 ∷ []) = rw e at j in elim k [ inl q ↦ (q, refl) | inr q ↦ absurd q ]
    | inr e ↦ let k : In t [] = rw e at j in absurd k
  ]
]

x_generation : generation_of x_ast 0 ≡ some 0
unfolding generation_of
x_generation = refl

pub x-IsValid : IsValid x_ast (x_frame ∷ [])
x-IsValid = record {
  fits =
      λ ns t i. let (q, e) = only_x ns t i in ap (λ k. namespace_of (x_ast k).kind) (sym q) ∙ sym e;
  generations =
      λ ns t i. let (q, e) = only_x ns t i in (0, ap (generation_of x_ast) (sym q) ∙ x_generation);
}

small_generation : (t g : ℕ) → 0 ≡ t → generation_of x_ast t ≡ some g → g + 1 < 2 ^ 31
small_generation t g q e =
    let f : some 0 ≡ some g = sym x_generation ∙ ap (generation_of x_ast) q ∙ e in
    let z : 0 ≡ g = cc f in omega (arith, z)

-- The second `x` is new to this state.
pub second-IsNew : IsNew x_ast (x_frame ∷ []) ns_main x_name 1
unfolding dollar_of
second-IsNew = record {
  unknown = λ ns i. let q = (only_x ns 1 i).0 in absurd (omega (arith, q));
  no_prev = refl;
  named = refl;
  spelled = cc;
  plain = refl;
  fits = refl;
  room = λ ns t g i e. small_generation t g (only_x ns t i).0 e;
}

-- The name of the first `x` once the second is registered.
abbrev pub old_name : Text
old_name = b'x' ∷ b'$' ∷ b'1' ∷ []

-- What a registration of the second `x` ends with.
abbrev pub twice : Ast
twice =
    ordered (replaced (rename_decl x_ast 0 old_name) 0 1) (record x_frame { redecls = 1 ∷ [] }) 1

abbrev pub twice_env : Env
twice_env =
    record x_frame {
      hash_table =
          λ h. if h == hash_string x_name then 1 ∷ x_frame.hash_table h else x_frame.hash_table h;
      redecls = 1 ∷ [];
      num_vars = 2;
    }
    ∷ []

pub second_registered :
    pkl_env_register true x_ast (x_frame ∷ []) ns_main x_name 1 ≡ registered (twice, twice_env)
unfolding pkl_env_register register_decl make_way redefine generation_of get_registered find_in
    get_ns_table set_ns_table numbered hash_string streq decimal_in
second_registered = refl
