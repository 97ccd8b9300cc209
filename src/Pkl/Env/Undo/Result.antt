-- ===== src/Pkl/Env/Undo/Result.antt =====
-- A compilation that is given up leaves no trace (libpoke/pkl-env.c, libpoke/pkl.c).
use poke.Base.{ℕ, ◌≡◌, ◌≢◌, refl, sym, subst, ◌∙◌, ap, Bool, true, [], ◌∷◌, some, inr}
use poke.Pkl.Text.{Text, streq}
use poke.Pkl.Decls.{Namespace, ns_main, ns_units, Ast, Hash, Frame, Env, get_registered}
use poke.Pkl.Env.{
  get_ns_table, is_empty, pkl_env_push_frame, pkl_env_dup_toplevel, pkl_env_lookup_type,
  pkl_env_lookup_var,
}
use poke.Pkl.Env.Rename.{redecls_free, env_redecls_free, pkl_env_free, pkl_env_pop_frame}
use poke.Pkl.Env.Valid.{IsValid, InEnv}
use poke.Pkl.Env.Lookup.Congr.{
  get_registered_congr, pkl_env_lookup_type_congr, pkl_env_lookup_var_congr,
}
use poke.Pkl.Env.Undo.Rollback.{field-redecls_free}
use poke.Pkl.Env.Undo.Session.{
  Step, declares, opens, closes, Compiles, here, next, Undoes, IsCopy, IsClean, base_redecls,
}
use poke.Pkl.Env.Undo.Steps.{push-IsCopy, declares-IsCopy}

-- Freeing a frame that has no redefinitions changes no declaration.
env_redecls_free-clean :
    (ast : Ast) (frame : Frame) (rollback_p : Bool)
    → frame.redecls ≡ []
    → env_redecls_free rollback_p ast frame ≡ some (ast, record frame { redecls = [] })
unfolding env_redecls_free redecls_free
env_redecls_free-clean ast frame rollback_p e = rw (e, env_redecls_free)

pkl_env_free-cons :
    (ast : Ast) (frame : Frame) (up : Env) {ast' : Ast}
    → pkl_env_free ast up ≡ some ast'
    → frame.redecls ≡ []
    → pkl_env_free ast (frame ∷ up) ≡ some ast'
unfolding pkl_env_free
pkl_env_free-cons ast frame up {ast'} e f =
    rw (e, pkl_env_free, env_redecls_free-clean ast' frame true f)

env_redecls_free-some :
    (ast : Ast) (frame : Frame) {ast' : Ast}
    → redecls_free true ast frame.redecls ≡ some ast'
    → env_redecls_free true ast frame ≡ some (ast', record frame { redecls = [] })
unfolding env_redecls_free
env_redecls_free-some ast frame e = rw (e, env_redecls_free)

free_toplevel :
    (ast : Ast) (frame : Frame) {ast' : Ast}
    → redecls_free true ast frame.redecls ≡ some ast'
    → pkl_env_free ast (frame ∷ []) ≡ some ast'
unfolding pkl_env_free
free_toplevel ast frame e = rw (env_redecls_free-some ast frame e, pkl_env_free)

abbrev pub is_single : Env → Bool
is_single [] = true
is_single (frame ∷ up) = is_empty up

pub pop-clean :
    (ast : Ast) (frame outer : Frame) (up : Env)
    → frame.redecls ≡ []
    → pkl_env_pop_frame ast (frame ∷ outer ∷ up) ≡ some (ast, outer ∷ up)
unfolding pkl_env_pop_frame pkl_env_free
pop-clean ast frame outer up e = rw (env_redecls_free-clean ast frame true e)

pop-IsCopy :
    (ast₀ ast : Ast) (frame outer : Frame) (up : Env)
    → IsCopy ast₀ ast (frame ∷ outer ∷ up)
    → IsCopy ast₀ ast (outer ∷ up)
pop-IsCopy ast₀ ast frame outer up copy = record {
  valid = record {
    fits = λ ns t i. copy.valid.fits ns t (inr i);
    generations = λ ns t i. copy.valid.generations ns t (inr i);
  };
  clean = copy.clean.1;
  listed = copy.listed;
  undo = copy.undo;
  same_kind = copy.same_kind;
  same_initial = copy.same_initial;
}

pub pop_toplevel :
    (ast : Ast) (env : Env) {r : Ast × Env}
    → is_single env ≡ true
    → pkl_env_pop_frame ast env ≢ some r
unfolding pkl_env_pop_frame
pop_toplevel ast [] e h = cc h
pop_toplevel ast (frame ∷ []) e h = cc h
pop_toplevel ast (frame ∷ outer ∷ up) e h = cc e

closes-IsCopy :
    (ast₀ ast : Ast) (env : Env)
    → IsCopy ast₀ ast env
    → {ast' : Ast} {env' : Env} → pkl_env_pop_frame ast env ≡ some (ast', env')
    → IsCopy ast₀ ast' env'
closes-IsCopy ast₀ ast [] copy h = absurd (pop_toplevel ast [] refl h)
closes-IsCopy ast₀ ast (frame ∷ []) copy h = absurd (pop_toplevel ast (frame ∷ []) refl h)
closes-IsCopy ast₀ ast (frame ∷ outer ∷ up) copy {ast'} {env'} h =
    let q : some (ast, outer ∷ up) ≡ some (ast', env') =
      sym (pop-clean ast frame outer up copy.clean.0) ∙ h in
    let e : ast ≡ ast' = cc q in
    let f : outer ∷ up ≡ env' = cc q in
    subst (λ t. IsCopy ast₀ ast' t) f
      (subst (λ a. IsCopy ast₀ a (outer ∷ up)) e (pop-IsCopy ast₀ ast frame outer up copy))

Step-IsCopy :
    (ast₀ : Ast) {ast ast' : Ast} {env env' : Env}
    → Step ast env ast' env'
    → IsCopy ast₀ ast env
    → IsCopy ast₀ ast' env'
unfolding pkl_env_push_frame
Step-IsCopy ast₀ {ast} {ast'} {env} (declares printed ns name d new h) copy =
    declares-IsCopy ast₀ printed ast env ns name d copy new h
Step-IsCopy ast₀ {ast} {ast'} {env} (opens e) copy =
    subst (λ t. IsCopy ast₀ ast t) (sym e) (push-IsCopy ast₀ ast env copy)
Step-IsCopy ast₀ {ast} {ast'} {env} (closes h) copy = closes-IsCopy ast₀ ast env copy h

pub Compiles-IsCopy :
    (ast₀ : Ast) {ast : Ast} {env : Env} {ast' : Ast} {env' : Env}
    → Compiles ast env ast' env'
    → IsCopy ast₀ ast env
    → IsCopy ast₀ ast' env'
Compiles-IsCopy ast₀ here copy = copy
Compiles-IsCopy ast₀ (next steps step) copy =
    Step-IsCopy ast₀ step (Compiles-IsCopy ast₀ steps copy)

InEnv-dup :
    (frame : Frame) (ns : Namespace) (t : ℕ)
    → InEnv (pkl_env_dup_toplevel frame) ns t
    → InEnv (frame ∷ []) ns t
unfolding pkl_env_dup_toplevel get_ns_table
InEnv-dup frame ns_main t i = i
InEnv-dup frame ns_units t i = i

pub dup-IsCopy :
    (ast : Ast) (frame : Frame)
    → IsValid ast (frame ∷ [])
    → IsCopy ast ast (pkl_env_dup_toplevel frame)
unfolding pkl_env_dup_toplevel redecls_free
dup-IsCopy ast frame ok = record {
  valid = record {
    fits = λ ns t i. ok.fits ns t (InEnv-dup frame ns t i);
    generations = λ ns t i. ok.generations ns t (InEnv-dup frame ns t i);
  };
  clean = tt;
  listed = λ n i. absurd i;
  undo = record { undone = ast; undoes = refl; same_names = λ k. refl };
  same_kind = λ k. refl;
  same_initial = λ k. refl;
}

free-undone :
    (ast₀ ast : Ast) (env : Env)
    → IsClean env
    → (u : Undoes ast₀ ast (base_redecls env)) → pkl_env_free ast env ≡ some u.undone
unfolding pkl_env_free redecls_free
free-undone ast₀ ast [] clean u = u.undoes
free-undone ast₀ ast (frame ∷ []) clean u = free_toplevel ast frame u.undoes
free-undone ast₀ ast (frame ∷ outer ∷ up) clean u =
    pkl_env_free-cons ast frame (outer ∷ up) (free-undone ast₀ ast (outer ∷ up) clean.1 u) clean.0

-- However a compilation registers declarations, redefines others, and opens and closes frames in its
-- copy of a valid top level, freeing the copy succeeds; then each name is registered in each table as
-- it was before the compilation, and stands for the same type or variable in each environment.
pub pkl_env_free-Compiles :
    (ast₀ : Ast) (frame : Frame)
    → IsValid ast₀ (frame ∷ [])
    → (ast : Ast) (env : Env) → Compiles ast₀ (pkl_env_dup_toplevel frame) ast env
    → (table : Hash) (env' : Env) (name : Text)
    → (ast₁ : Ast) × (pkl_env_free ast env ≡ some ast₁)
      × (get_registered ast₁ table name ≡ get_registered ast₀ table name)
      × (pkl_env_lookup_type ast₁ env' name ≡ pkl_env_lookup_type ast₀ env' name)
      × (pkl_env_lookup_var ast₁ env' name ≡ pkl_env_lookup_var ast₀ env' name)
pkl_env_free-Compiles ast₀ frame ok ast env steps table env' name =
    let copy = Compiles-IsCopy ast₀ steps (dup-IsCopy ast₀ frame ok) in
    let u = copy.undo in
    let kinds : (k : ℕ) → (u.undone k).kind ≡ (ast₀ k).kind = λ k.
      field-redecls_free (λ r. r.kind) (λ r n. refl) (λ r p. refl) ast (base_redecls env) u.undoes k
      ∙ copy.same_kind k in
    let initials : (k : ℕ) → (u.undone k).initial ≡ (ast₀ k).initial = λ k.
      field-redecls_free (λ r. r.initial) (λ r n. refl) (λ r p. refl) ast (base_redecls env)
        u.undoes k
      ∙ copy.same_initial k in
    (
      u.undone,
      free-undone ast₀ ast env copy.clean u,
      get_registered_congr ast₀ u.undone name table
          (λ t i. ap (λ s. streq s name) (u.same_names t)),
      pkl_env_lookup_type_congr ast₀ u.undone env' name u.same_names kinds initials,
      pkl_env_lookup_var_congr ast₀ u.undone env' name u.same_names kinds initials,
    )
