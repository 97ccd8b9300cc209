-- ===== src/Lexical/Address.antt =====
-- The lexical address that the compiler computes for a name is where the program finds its value.
use poke.Base.{ℕ, ◌≡◌, subst, true, [], ◌∷◌, some, arith}
use poke.Pkl.Text.{Text}
use poke.Pkl.Decls.{Ast, Frame, Env, ns_main}
use poke.Pkl.Env.{pkl_env_lookup, pkl_env_dup_toplevel}
use poke.Pkl.Env.Valid.{IsValid}
use poke.Pkl.Env.Facts.{is_variable}
use poke.Pvm.Env.{Heap, pvm_env_lookup, pvm_env_register}
use poke.Pvm.Env.Blocks.{IsFrame, pvm_env_register-Extends}
use poke.Lexical.Mirror.{Mirrors, mirrored_from}
use poke.Lexical.Runs.{Runs, Runs-Mirrors}

module _ {V : Type 0} (null : V) (value : ℕ → V) (ast₀ : Ast) (frame₀ : Frame) (heap₀ : Heap V)
    (e₀ : ℕ) (ok : IsValid ast₀ (frame₀ ∷ []))
    (mirror : Mirrors value ast₀ heap₀ heap₀.next (pkl_env_dup_toplevel frame₀) (some e₀))
    (ast : Ast) (env : Env) (heap : Heap V) (e : ℕ)
    (runs : Runs null value ast₀ frame₀ heap₀ e₀ ast env heap e) where
  -- From a valid top level that the run-time environment mirrors, after any declarations and scopes: if
  -- the compiler finds a variable or function under a name, the place that it gives in the run-time
  -- environment holds the value that this declaration was given.
  pub pvm_env_lookup-pkl_env_lookup :
      (name : Text) (d back over : ℕ)
      → pkl_env_lookup ast env ns_main name ≡ some (d, back, over)
      → is_variable (ast d).kind ≡ true
      → pvm_env_lookup heap e back over ≡ some (value d)
  unfolding pkl_env_lookup
  pvm_env_lookup-pkl_env_lookup name d back over h v =
      let m = Runs-Mirrors null value ast₀ frame₀ heap₀ e₀ ok mirror runs in
      let (u, k, q, far, found) =
        mirrored_from value ast heap heap.next env (some e) 0 name {d = d} {back = back}
          {over = over} m h v in
      let e≡ : u ≡ e = cc q in
      let back≡ : k ≡ back = omega (arith, far) in
      subst (λ j. pvm_env_lookup heap j back over ≡ some (value d)) e≡
        (subst (λ j. pvm_env_lookup heap u j over ≡ some (value d)) back≡ found)

  mirrored_register :
      (env' : Env)
      → Mirrors value ast heap heap.next env' (some e)
      → (val : V) → (heap' : Heap V) × (pvm_env_register null heap e val ≡ some heap')
  mirrored_register [] m val = absurd (cc m)
  mirrored_register (frame ∷ up) (k, q, below, held, rest) val =
      let e≡ : k ≡ e = cc q in
      let (heap', g, x) =
        pvm_env_register-Extends null heap e val
          (subst (λ j. IsFrame (heap.frame_at j)) e≡ held.block) in
      (heap', g)

  -- In such a state the program can declare one more variable, of any value: no assertion fails and
  -- nothing is written outside the block.
  pub pvm_env_register_total :
      (val : V) → (heap' : Heap V) × (pvm_env_register null heap e val ≡ some heap')
  pvm_env_register_total =
      mirrored_register env (Runs-Mirrors null value ast₀ frame₀ heap₀ e₀ ok mirror runs)
