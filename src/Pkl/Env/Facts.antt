-- ===== src/Pkl/Env/Facts.antt =====
-- What a registration (libpoke/pkl-env.c) means for lexical addresses: kinds stay, and so does each
-- order but that of the new declaration.
use poke.Base.{ℕ, ◌+◌, ◌≡◌, ◌≢◌, refl, subst, ◌∙◌, ap, Bool, true, false, List, ◌∷◌, ◌⊎◌}
use poke.Pkl.Text.{Text}
use poke.Pkl.Decls.{
  Kind, var_kind, type_kind, func_kind, unit_kind, Namespace, ns_main, ns_units, Ast, Decl, Frame,
  Env,
}
use poke.Pkl.Env.{registered, get_ns_table, numbered, set_ns_table, pkl_env_register}
use poke.Pkl.Env.Cases.{Case, added, redeclared, with_decl, redefined, register-Case}
use poke.Pkl.Env.Valid.{
  InTable, InTable-grown, grown_frame, field-ordered, field-redefined, write_self, write_ne,
}
use poke.Pkl.Env.Lookup.{next_order, next_order-set}

-- Variables and functions have a place at run time.
abbrev pub is_variable : Kind → Bool
is_variable var_kind = true
is_variable func_kind = true
is_variable type_kind = false
is_variable unit_kind = false

abbrev pub vars_after : Kind → ℕ → ℕ
vars_after var_kind n = n + 1
vars_after func_kind n = n + 1
vars_after type_kind n = n
vars_after unit_kind n = n

num_vars-numbered :
    (kind : Kind) (frame : Frame) (redecls : List ℕ) (ns : Namespace) (table : ℕ → List ℕ)
    → (numbered kind (set_ns_table (record frame { redecls = redecls }) ns table)).1.num_vars
      ≡ vars_after kind frame.num_vars
unfolding numbered set_ns_table
num_vars-numbered var_kind frame redecls ns_main table = refl
num_vars-numbered var_kind frame redecls ns_units table = refl
num_vars-numbered type_kind frame redecls ns_main table = refl
num_vars-numbered type_kind frame redecls ns_units table = refl
num_vars-numbered func_kind frame redecls ns_main table = refl
num_vars-numbered func_kind frame redecls ns_units table = refl
num_vars-numbered unit_kind frame redecls ns_main table = refl
num_vars-numbered unit_kind frame redecls ns_units table = refl

pub record Facts (ast : Ast) (frame : Frame) (ns : Namespace) (d : ℕ) (ast' : Ast) (frame' : Frame)
    : Type 0 where
  pub same_kind : (k : ℕ) → (ast' k).kind ≡ (ast k).kind
  pub same_order : (k : ℕ) → k ≢ d → (ast' k).order ≡ (ast k).order
  pub new_order : (ast' d).order ≡ next_order (ast d).kind frame
  pub members :
      (ns' : Namespace) (t : ℕ)
      → InTable (get_ns_table frame' ns') t
      → ((d ≡ t) × (ns ≡ ns')) ⊎ InTable (get_ns_table frame ns') t
  pub count : frame'.num_vars ≡ vars_after (ast d).kind frame.num_vars

module _ (printed : Bool) (ast : Ast) (frame : Frame) (up : Env) (ns : Namespace) (name : Text)
    (d : ℕ) where
  with_decl-Facts :
      (ast' : Ast) (redecls : List ℕ)
      → ((k : ℕ) → (ast' k).kind ≡ (ast k).kind)
      → ((k : ℕ) → (ast' k).order ≡ (ast k).order)
      → Facts ast frame ns d
          (with_decl printed ast frame up ns name d ast' redecls).0
          (grown_frame (ast' d).kind frame redecls ns name d)
  with_decl-Facts ast' redecls kinds orders = record {
    same_kind = λ k. field-ordered (λ r. r.kind) ast' _ d (λ r o. refl) k ∙ kinds k;
    same_order = λ k n. ap (λ (r : Decl). r.order) (write_ne ast' d _ k n) ∙ orders k;
    new_order =
        ap (λ (r : Decl). r.order) (write_self ast' d _)
        ∙ next_order-set (ast' d).kind frame redecls ns _
        ∙ ap (λ k. next_order k frame) (kinds d);
    members = InTable-grown (ast' d).kind frame redecls ns name d;
    count =
        num_vars-numbered (ast' d).kind frame redecls ns _
        ∙ ap (λ k. vars_after k frame.num_vars) (kinds d);
  }

  Case-Facts :
      {ast' : Ast} {env' : Env}
      → Case printed ast frame up ns name d (registered (ast', env'))
      → (frame' : Frame) × (env' ≡ frame' ∷ up) × Facts ast frame ns d ast' frame'
  Case-Facts (added h) = (_, refl, with_decl-Facts ast frame.redecls (λ k. refl) (λ k. refl))
  Case-Facts (redeclared found g h t m e p) = (
    _,
    refl,
    with_decl-Facts (redefined printed ast frame up ns name d found g) (d ∷ frame.redecls)
        (field-redefined printed ast frame up ns name d found g (λ r. r.kind) (λ r n. refl)
          (λ r p. refl))
        (field-redefined printed ast frame up ns name d found g (λ r. r.order) (λ r n. refl)
          (λ r p. refl)),
  )

  pub registered-Facts :
      {ast' : Ast} {env' : Env}
      → pkl_env_register printed ast (frame ∷ up) ns name d ≡ registered (ast', env')
      → (frame' : Frame) × (env' ≡ frame' ∷ up) × Facts ast frame ns d ast' frame'
  registered-Facts h =
      Case-Facts (
        subst (Case printed ast frame up ns name d) h
          (register-Case printed ast frame up ns name d))
