-- ===== src/Pkl/Env/Undo/Session.antt =====
-- A compilation works on a copy of the top level (`pkl_env_dup_toplevel`, libpoke/pkl.c), in which it
-- registers declarations and opens and closes frames; it ends with the copy freed, unless it succeeds.
use poke.Base.{ℕ, ◌≡◌, refl, Bool, true, List, [], ◌∷◌, some, inr}
use poke.Pkl.Text.{Text}
use poke.Pkl.Decls.{
  Kind, var_kind, type_kind, func_kind, unit_kind, Namespace, ns_main, ns_units, Ast, Frame, Env,
}
use poke.Pkl.Env.{registered, numbered, set_ns_table, pkl_env_register, pkl_env_push_frame}
use poke.Pkl.Env.Rename.{redecls_free, pkl_env_pop_frame}
use poke.Pkl.Env.Valid.{IsValid, IsNew, In, InEnv}

-- What the compiler may do with its environment.
pub data Step : Ast → Env → Ast → Env → Type 0 where
  declares :
      {ast ast' : Ast} {env env' : Env} (printed : Bool) (ns : Namespace) (name : Text) (d : ℕ)
      → IsNew ast env ns name d
      → pkl_env_register printed ast env ns name d ≡ registered (ast', env')
      → Step ast env ast' env'
  opens : {ast : Ast} {env env' : Env} → env' ≡ pkl_env_push_frame env → Step ast env ast env'
  closes :
      {ast ast' : Ast} {env env' : Env}
      → pkl_env_pop_frame ast env ≡ some (ast', env')
      → Step ast env ast' env'

pub data Compiles (ast : Ast) (env : Env) : Ast → Env → Type 0 where
  here : Compiles ast env ast env
  next :
      {ast' ast'' : Ast} {env' env'' : Env}
      → Compiles ast env ast' env'
      → Step ast' env' ast'' env''
      → Compiles ast env ast'' env''

-- The top level of an environment, and its redefinitions.
abbrev pub base : Env → Env
base [] = []
base (frame ∷ []) = frame ∷ []
base (frame ∷ outer ∷ up) = base (outer ∷ up)

abbrev pub base_redecls : Env → List ℕ
base_redecls [] = []
base_redecls (frame ∷ []) = frame.redecls
base_redecls (frame ∷ outer ∷ up) = base_redecls (outer ∷ up)

-- No other frame has redefinitions.
abbrev pub IsClean : Env → Type 0
IsClean [] = Unit
IsClean (frame ∷ []) = Unit
IsClean (frame ∷ outer ∷ up) = (frame.redecls ≡ []) × IsClean (outer ∷ up)

-- The copy can be undone to names that are those of `ast₀`.
pub record Undoes (ast₀ ast : Ast) (redecls : List ℕ) : Type 0 where
  pub undone : Ast
  pub undoes : redecls_free true ast redecls ≡ some undone
  pub same_names : (k : ℕ) → (undone k).name ≡ (ast₀ k).name

pub record IsCopy (ast₀ ast : Ast) (env : Env) : Type 0 where
  pub valid : IsValid ast env
  pub clean : IsClean env
  pub listed : (n : ℕ) → In n (base_redecls env) → (ns : Namespace) × InEnv (base env) ns n
  pub undo : Undoes ast₀ ast (base_redecls env)
  pub same_kind : (k : ℕ) → (ast k).kind ≡ (ast₀ k).kind
  pub same_initial : (k : ℕ) → (ast k).initial ≡ (ast₀ k).initial

pub InEnv-base : (env : Env) (ns : Namespace) (n : ℕ) → InEnv (base env) ns n → InEnv env ns n
InEnv-base [] ns n i = i
InEnv-base (frame ∷ []) ns n i = i
InEnv-base (frame ∷ outer ∷ up) ns n i = inr (InEnv-base (outer ∷ up) ns n i)

pub redecls-numbered :
    (kind : Kind) (frame : Frame) (redecls : List ℕ) (ns : Namespace) (table : ℕ → List ℕ)
    → (numbered kind (set_ns_table (record frame { redecls = redecls }) ns table)).1.redecls
      ≡ redecls
unfolding numbered set_ns_table
redecls-numbered var_kind frame redecls ns_main table = refl
redecls-numbered var_kind frame redecls ns_units table = refl
redecls-numbered type_kind frame redecls ns_main table = refl
redecls-numbered type_kind frame redecls ns_units table = refl
redecls-numbered func_kind frame redecls ns_main table = refl
redecls-numbered func_kind frame redecls ns_units table = refl
redecls-numbered unit_kind frame redecls ns_main table = refl
redecls-numbered unit_kind frame redecls ns_units table = refl
