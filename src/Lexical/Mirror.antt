-- ===== src/Lexical/Mirror.antt =====
-- A run-time environment mirrors a compile-time one when its frames hold the values of the variables
-- and functions of the frames of the other, each at its order.
use poke.Base.{
  ℕ, suc, ◌+◌, ◌<◌, ◌≤◌, ◌≡◌, refl, sym, subst, ◌∙◌, ap, true, [], ◌∷◌, Option, none, some, arith,
  get_elem?, Option-cases, inl, inr,
}
use native.Mathlib.Nat.{add-zero}
use poke.Pkl.Text.{Text}
use poke.Pkl.Decls.{ns_main, Ast, Frame, Env, get_registered}
use poke.Pkl.Env.{get_ns_table, lookup_1}
use poke.Pkl.Env.Valid.{InEnv, InTable, get_registered-InTable}
use poke.Pkl.Env.Lookup.Congr.{lookup_1-found, lookup_1-up}
use poke.Pkl.Env.Facts.{is_variable}
use poke.Pvm.Env
use poke.Pvm.Env.{Heap, pvm_env_back, pvm_env_lookup}
use poke.Pvm.Env.Blocks.{IsFrame}
use poke.Pvm.Env.Alias.{pvm_env_back-up, pvm_env_lookup-back}

-- `value` tells the value that a declaration was given when the program declared it.
module _ {V : Type 0} (value : ℕ → V) where
  pub record Held (ast : Ast) (frame : Frame) (run : Env.Frame V) : Type 0 where
    pub count : run.num_vars ≡ frame.num_vars
    pub block : IsFrame run
    pub placed :
        (d : ℕ)
        → InTable (get_ns_table frame ns_main) d
        → is_variable (ast d).kind ≡ true
        → ((ast d).order < frame.num_vars) × (get_elem? run.vars (ast d).order ≡ some (value d))

  -- The frames from an address below the bound on, which are ever older.
  abbrev pub Mirrors : Ast → Heap V → (bound : ℕ) → Env → Option ℕ → Type 0
  Mirrors ast heap bound [] o = o ≡ none
  Mirrors ast heap bound (frame ∷ up) o =
      (e : ℕ) × (o ≡ some e)
      × (e < bound)
      × Held ast frame (heap.frame_at e)
      × Mirrors ast heap e up (heap.frame_at e).up

  pvm_env_lookup-here :
      (heap : Heap V) (e over : ℕ)
      → pvm_env_lookup heap e 0 over ≡ get_elem? (heap.frame_at e).vars over
  unfolding pvm_env_back
  pvm_env_lookup-here heap e over = pvm_env_lookup-back heap e 0 over refl

  pvm_env_lookup-up :
      (heap : Heap V) (e back over : ℕ) {up : ℕ}
      → (heap.frame_at e).up ≡ some up
      → pvm_env_lookup heap e (suc back) over ≡ pvm_env_lookup heap up back over
  unfolding pvm_env_lookup
  pvm_env_lookup-up heap e back over h = rw (pvm_env_back-up heap e back h, pvm_env_lookup)

  pub mirrored_from :
      (ast : Ast) (heap : Heap V) (bound : ℕ) (env : Env) (o : Option ℕ) (n : ℕ) (name : Text)
      {d back over : ℕ}
      → Mirrors ast heap bound env o
      → lookup_1 ast env ns_main name n ≡ some (d, back, over)
      → is_variable (ast d).kind ≡ true
      → (e k : ℕ) × (o ≡ some e) × (back ≡ n + k) × (pvm_env_lookup heap e k over ≡ some (value d))
  unfolding lookup_1
  mirrored_from ast heap bound [] o n name m h v = absurd (cc h)
  mirrored_from ast heap bound (frame ∷ up) o n name {d} {back} {over} (e, q, below, held, rest) h
        v =
      let deeper =
        mirrored_from ast heap e up (heap.frame_at e).up (n + 1) name {d = d} {back = back}
          {over = over} rest in
      elim (Option-cases (get_registered ast (get_ns_table frame ns_main) name)) [
        | inr (t, f) ↦
            let r : some (d, back, over) ≡ some (t, n, (ast t).order) =
              sym h ∙ lookup_1-found ast frame up ns_main name n f in
            let d≡ : d ≡ t = cc r in
            let back≡ : back ≡ n = cc r in
            let over≡ : over ≡ (ast t).order = cc r in
            let there = (get_registered-InTable ast (get_ns_table frame ns_main) name f).0 in
            let placed = held.placed t there (ap (λ k. is_variable (ast k).kind) (sym d≡) ∙ v) in
            (
              e,
              0,
              q,
              back≡ ∙ sym (add-zero n),
              pvm_env_lookup-here heap e over
                  ∙ ap (λ k. get_elem? (heap.frame_at e).vars k) over≡
                  ∙ placed.1
                  ∙ ap (λ k. some (value k)) (sym d≡),
            )
        | inl f ↦
            let (u, k, link, far, found) =
              deeper (sym (lookup_1-up ast frame up ns_main name n f) ∙ h) v in
            (e, suc k, q, omega (arith, far), pvm_env_lookup-up heap e k over link ∙ found)
      ]

  -- Nothing that the mirror sees has changed.
  pub Mirrors-congr :
      (ast ast' : Ast) (heap heap' : Heap V) (bound : ℕ) (env : Env) (o : Option ℕ)
      → ((k : ℕ) → (ast' k).kind ≡ (ast k).kind)
      → ((t : ℕ) → InEnv env ns_main t → (ast' t).order ≡ (ast t).order)
      → ((k : ℕ) → k < bound → heap'.frame_at k ≡ heap.frame_at k)
      → Mirrors ast heap bound env o
      → Mirrors ast' heap' bound env o
  Mirrors-congr ast ast' heap heap' bound [] o kinds orders frames m = m
  Mirrors-congr ast ast' heap heap' bound (frame ∷ up) o kinds orders frames
        (e, q, below, held, rest) =
      let same = frames e below in
      (
        e,
        q,
        below,
        subst (λ run. Held ast' frame run) (sym same)
            (record {
              count = held.count;
              block = held.block;
              placed = λ d i v.
                  let (lt, got) = held.placed d i (ap is_variable (sym (kinds d)) ∙ v) in
                  let order = orders d (inl i) in
                  (omega (arith, order), ap (λ k. get_elem? (heap.frame_at e).vars k) order ∙ got);
            }),
        subst (λ run. Mirrors ast' heap' e up run.up) (sym same)
            (Mirrors-congr ast ast' heap heap' e up (heap.frame_at e).up kinds
              (λ t i. orders t (inr i)) (λ k h. frames k (omega (arith, h, below))) rest),
      )

  pub Mirrors-widen :
      (ast : Ast) (heap : Heap V) (bound bound' : ℕ) (env : Env) (o : Option ℕ)
      → bound ≤ bound'
      → Mirrors ast heap bound env o
      → Mirrors ast heap bound' env o
  Mirrors-widen ast heap bound bound' [] o h m = m
  Mirrors-widen ast heap bound bound' (frame ∷ up) o h (e, q, below, held, rest) =
      (e, q, omega (arith, h, below), held, rest)
