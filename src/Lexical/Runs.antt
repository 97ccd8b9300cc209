-- ===== src/Lexical/Runs.antt =====
-- The program that a compilation makes runs along with it: each declaration of a variable or function
-- gives a value to the run-time environment, and each scope is a frame of both.
mod Declare
use poke.Base.{
  ℕ, zero, suc, ◌+◌, ◌<◌, ◌≤◌, ◌≡◌, ◌≢◌, refl, sym, subst, ◌∙◌, ap, Bool, true, false, List, [],
  ◌∷◌, Option, none, some, arith, inl, inr,
}
use poke.Pkl.Text.{Text}
use poke.Pkl.Decls.{Namespace, ns_main, Ast, Frame, Env}
use poke.Pkl.Env.{
  registered, new_frame, pkl_env_register, pkl_env_lookup, pkl_env_push_frame, pkl_env_dup_toplevel,
  get_ns_table, lookup_1,
}
use poke.Pkl.Env.Rename.{pkl_env_pop_frame}
use poke.Pkl.Env.Valid.{IsValid, IsNew, InEnv}
use poke.Pkl.Env.Facts.{is_variable}
use poke.Pkl.Env.Undo.{
  Step, declares, opens, closes, Compiles, here, next, IsCopy, Compiles-IsCopy, dup-IsCopy,
  pop-clean, pop_toplevel,
}
use poke.Pvm.Env.{Heap, pvm_env_register, pvm_env_push_frame, pvm_env_pop_frame, pvm_env_lookup}
use poke.Lexical.Mirror.{Mirrors}
use poke.Pkl.Env.Facts.{registered-Facts}
use poke.Pvm.Env.Blocks.{IsFrame, Extends, pvm_env_register-Extends}
use poke.Pvm.Env.Toplevel.{pvm_env_push_frame-Pushes}
use poke.Lexical.Mirror.{mirrored_from, Mirrors-widen}
use Declare.{Mirrors-variable, Mirrors-other, Mirrors-push}

module _ {V : Type 0} (null : V) (value : ℕ → V) where
  -- The two environments after a number of declarations and scopes, from a copy of the top level.
  pub data Runs (ast₀ : Ast) (frame₀ : Frame) (heap₀ : Heap V) (e₀ : ℕ)
      : Ast → Env → Heap V → ℕ → Type 0 where
    begins : Runs ast₀ frame₀ heap₀ e₀ ast₀ (pkl_env_dup_toplevel frame₀) heap₀ e₀
    variable :
        {ast ast' : Ast} {env env' : Env} {heap heap' : Heap V} {e : ℕ} (printed : Bool)
        (ns : Namespace) (name : Text) (d : ℕ)
        → Runs ast₀ frame₀ heap₀ e₀ ast env heap e
        → IsNew ast env ns name d
        → is_variable (ast d).kind ≡ true
        → pkl_env_register printed ast env ns name d ≡ registered (ast', env')
        → pvm_env_register null heap e (value d) ≡ some heap'
        → Runs ast₀ frame₀ heap₀ e₀ ast' env' heap' e
    other :
        {ast ast' : Ast} {env env' : Env} {heap : Heap V} {e : ℕ} (printed : Bool) (ns : Namespace)
        (name : Text) (d : ℕ)
        → Runs ast₀ frame₀ heap₀ e₀ ast env heap e
        → IsNew ast env ns name d
        → is_variable (ast d).kind ≡ false
        → pkl_env_register printed ast env ns name d ≡ registered (ast', env')
        → Runs ast₀ frame₀ heap₀ e₀ ast' env' heap e
    enters :
        {ast : Ast} {env env' : Env} {heap heap' : Heap V} {e e' : ℕ} (hint : ℕ)
        → Runs ast₀ frame₀ heap₀ e₀ ast env heap e
        → env' ≡ pkl_env_push_frame env
        → pvm_env_push_frame heap e hint ≡ (e', heap')
        → Runs ast₀ frame₀ heap₀ e₀ ast env' heap' e'
    leaves :
        {ast ast' : Ast} {env env' : Env} {heap : Heap V} {e e' : ℕ}
        → Runs ast₀ frame₀ heap₀ e₀ ast env heap e
        → pkl_env_pop_frame ast env ≡ some (ast', env')
        → pvm_env_pop_frame heap e ≡ some e'
        → Runs ast₀ frame₀ heap₀ e₀ ast' env' heap e'

  module _ (ast₀ : Ast) (frame₀ : Frame) (heap₀ : Heap V) (e₀ : ℕ) where
    Runs-Compiles :
        {ast : Ast} {env : Env} {heap : Heap V} {e : ℕ}
        → Runs ast₀ frame₀ heap₀ e₀ ast env heap e
        → Compiles ast₀ (pkl_env_dup_toplevel frame₀) ast env
    Runs-Compiles begins = here
    Runs-Compiles (variable printed ns name d r new v h g) =
        next (Runs-Compiles r) (declares printed ns name d new h)
    Runs-Compiles (other printed ns name d r new v h) =
        next (Runs-Compiles r) (declares printed ns name d new h)
    Runs-Compiles (enters hint r h g) = next (Runs-Compiles r) (opens h)
    Runs-Compiles (leaves r h g) = next (Runs-Compiles r) (closes h)

  variable-Mirrors :
      (printed : Bool) (ast : Ast) (env : Env) (ns : Namespace) (name : Text) (d : ℕ)
      (heap : Heap V) (e : ℕ)
      → IsNew ast env ns name d
      → is_variable (ast d).kind ≡ true
      → Mirrors value ast heap heap.next env (some e)
      → {ast' : Ast} {env' : Env} {heap' : Heap V}
      → pkl_env_register printed ast env ns name d ≡ registered (ast', env')
      → pvm_env_register null heap e (value d) ≡ some heap'
      → Mirrors value ast' heap' heap'.next env' (some e)
  variable-Mirrors printed ast [] ns name d heap e new v m h g = absurd (cc m)
  variable-Mirrors printed ast (frame ∷ up) ns name d heap e new v (k, q, below, held, rest) {ast'}
        {env'} {heap'} h g =
      let (frame', same, facts) = registered-Facts printed ast frame up ns name d h in
      let e≡ : k ≡ e = cc q in
      let (heap'', g', x) =
        pvm_env_register-Extends null heap e (value d)
          (subst (λ j. IsFrame (heap.frame_at j)) e≡ held.block) in
      let heap≡ : heap'' ≡ heap' = let j : some heap'' ≡ some heap' = sym g' ∙ g in cc j in
      subst (λ t. Mirrors value ast' t t.next env' (some e)) heap≡
        (subst (λ t. Mirrors value ast' heap'' heap''.next t (some e)) (sym same)
          (Mirrors-widen value ast' heap'' heap.next heap''.next (frame' ∷ up) (some e)
            (omega (arith, x.same_next))
            (Mirrors-variable value ast ast' frame frame' up ns d new.unknown facts heap heap''
              heap.next e v x (k, q, below, held, rest))))

  other-Mirrors :
      (printed : Bool) (ast : Ast) (env : Env) (ns : Namespace) (name : Text) (d : ℕ)
      (heap : Heap V) (e : ℕ)
      → IsNew ast env ns name d
      → is_variable (ast d).kind ≡ false
      → Mirrors value ast heap heap.next env (some e)
      → {ast' : Ast} {env' : Env}
      → pkl_env_register printed ast env ns name d ≡ registered (ast', env')
      → Mirrors value ast' heap heap.next env' (some e)
  other-Mirrors printed ast [] ns name d heap e new v m h = absurd (cc m)
  other-Mirrors printed ast (frame ∷ up) ns name d heap e new v m {ast'} {env'} h =
      let (frame', same, facts) = registered-Facts printed ast frame up ns name d h in
      subst (λ t. Mirrors value ast' heap heap.next t (some e)) (sym same)
        (Mirrors-other value ast ast' frame frame' up ns d new.unknown facts heap heap.next (some e)
          v m)

  enters-Mirrors :
      (ast : Ast) (env : Env) (heap : Heap V) (e hint : ℕ)
      → Mirrors value ast heap heap.next env (some e)
      → {e' : ℕ} {heap' : Heap V} → pvm_env_push_frame heap e hint ≡ (e', heap')
      → Mirrors value ast heap' heap'.next (new_frame ∷ env) (some e')
  enters-Mirrors ast env heap e hint m {e'} {heap'} h =
      subst (λ (r : ℕ × Heap V). Mirrors value ast r.1 r.1.next (new_frame ∷ env) (some r.0)) h
        (Mirrors-push value ast heap (pvm_env_push_frame heap e hint).1 env e
          (pvm_env_push_frame heap e hint).0 (pvm_env_push_frame-Pushes heap e hint) m)

  leaves-Mirrors :
      (ast₀ ast : Ast) (env : Env) (heap : Heap V) (e : ℕ)
      → IsCopy ast₀ ast env
      → Mirrors value ast heap heap.next env (some e)
      → {ast' : Ast} {env' : Env} {e' : ℕ} → pkl_env_pop_frame ast env ≡ some (ast', env')
      → pvm_env_pop_frame heap e ≡ some e'
      → Mirrors value ast' heap heap.next env' (some e')
  unfolding pvm_env_pop_frame
  leaves-Mirrors ast₀ ast [] heap e copy m h g = absurd (pop_toplevel ast [] refl h)
  leaves-Mirrors ast₀ ast (frame ∷ []) heap e copy m h g =
      absurd (pop_toplevel ast (frame ∷ []) refl h)
  leaves-Mirrors ast₀ ast (frame ∷ outer ∷ up) heap e copy (k, q, below, held, rest) {ast'} {env'}
        {e'} h g =
      let r : some (ast, outer ∷ up) ≡ some (ast', env') =
        sym (pop-clean ast frame outer up copy.clean.0) ∙ h in
      let ast≡ : ast ≡ ast' = cc r in
      let env≡ : outer ∷ up ≡ env' = cc r in
      let e≡ : k ≡ e = cc q in
      let link : (heap.frame_at k).up ≡ some e' = ap (λ j. (heap.frame_at j).up) e≡ ∙ g in
      subst (λ t. Mirrors value ast' heap heap.next t (some e')) env≡
        (subst (λ a. Mirrors value a heap heap.next (outer ∷ up) (some e')) ast≡
          (subst (λ o. Mirrors value ast heap heap.next (outer ∷ up) o) link
            (Mirrors-widen value ast heap k heap.next (outer ∷ up) (heap.frame_at k).up
              (omega (arith, below)) rest)))

  pub Runs-Mirrors :
      (ast₀ : Ast) (frame₀ : Frame) (heap₀ : Heap V) (e₀ : ℕ)
      → IsValid ast₀ (frame₀ ∷ [])
      → Mirrors value ast₀ heap₀ heap₀.next (pkl_env_dup_toplevel frame₀) (some e₀)
      → {ast : Ast} {env : Env} {heap : Heap V} {e : ℕ} → Runs ast₀ frame₀ heap₀ e₀ ast env heap e
      → Mirrors value ast heap heap.next env (some e)
  unfolding pkl_env_push_frame
  Runs-Mirrors ast₀ frame₀ heap₀ e₀ ok m begins = m
  Runs-Mirrors ast₀ frame₀ heap₀ e₀ ok m (variable printed ns name d r new v h g) =
      variable-Mirrors printed _ _ ns name d _ _ new v (Runs-Mirrors ast₀ frame₀ heap₀ e₀ ok m r) h
        g
  Runs-Mirrors ast₀ frame₀ heap₀ e₀ ok m (other printed ns name d r new v h) =
      other-Mirrors printed _ _ ns name d _ _ new v (Runs-Mirrors ast₀ frame₀ heap₀ e₀ ok m r) h
  Runs-Mirrors ast₀ frame₀ heap₀ e₀ ok m
        (enters {ast = ast} {env = env} {heap' = heap'} {e' = e'} hint r h g) =
      subst (λ t. Mirrors value ast heap' heap'.next t (some e')) (sym h)
        (enters-Mirrors ast env _ _ hint (Runs-Mirrors ast₀ frame₀ heap₀ e₀ ok m r) g)
  Runs-Mirrors ast₀ frame₀ heap₀ e₀ ok m (leaves r h g) =
      leaves-Mirrors ast₀ _ _ _ _
        (Compiles-IsCopy ast₀ (Runs-Compiles ast₀ frame₀ heap₀ e₀ r) (dup-IsCopy ast₀ frame₀ ok))
        (Runs-Mirrors ast₀ frame₀ heap₀ e₀ ok m r) h g
