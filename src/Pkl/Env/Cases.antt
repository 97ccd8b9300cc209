-- ===== src/Pkl/Env/Cases.antt =====
-- The outcomes of a registration (libpoke/pkl-env.c), and what it leaves as it is.
use poke.Base.{
  ℕ, ◌+◌, ◌≡◌, ◌∙◌, Bool, true, false, List, ◌∷◌, none, some, Bool-cases, Option-cases, ◌⊎◌, inl,
  inr,
}
use poke.Pkl.Text.{Text}
use poke.Pkl.Decls.{
  Ast, Frame, Env, Namespace, rename_decl, generation_name, generation_of, get_registered,
}
use poke.Pkl.Env.{
  Registered, registered, rejected, aborted, get_ns_table, set_ns_table, chained, replaced,
  redefine, make_way, register_decl, numbered, ordered, is_empty, pkl_env_register,
}

module _ (printed : Bool) (ast : Ast) (frame : Frame) (up : Env) (ns : Namespace) (name : Text)
    (d : ℕ) where
  -- The state with the declaration in its bucket and numbered.
  abbrev pub with_decl : Ast → List ℕ → Ast × Env
  with_decl ast' redecls =
      let table = chained (get_ns_table frame ns) name d in
      let frame' = set_ns_table (record frame { redecls = redecls }) ns table in
      (ordered ast' frame' d, (numbered (ast' d).kind frame').1 ∷ up)

  abbrev pub redefined : ℕ → ℕ → Ast
  redefined found g = replaced (rename_decl ast found (generation_name name (g + 1))) found d

  pub data Case : Registered (Ast × Env) → Type 0 where
    added :
        get_registered ast (get_ns_table frame ns) name ≡ none
        → Case (registered (with_decl ast frame.redecls))
    redeclared :
        (found g : ℕ)
        → get_registered ast (get_ns_table frame ns) name ≡ some found
        → is_empty up ≡ true
        → (ast found).immutable_p ≡ false
        → generation_of ast found ≡ some g
        → printed ≡ true
        → Case (registered (with_decl (redefined found g) (d ∷ frame.redecls)))
    refused :
        (found : ℕ)
        → get_registered ast (get_ns_table frame ns) name ≡ some found
        → (is_empty up ≡ false) ⊎ ((ast found).immutable_p ≡ true) ⊎ (printed ≡ false)
        → Case rejected
    failed :
        (found : ℕ)
        → get_registered ast (get_ns_table frame ns) name ≡ some found
        → is_empty up ≡ true
        → (ast found).immutable_p ≡ false
        → generation_of ast found ≡ none
        → Case aborted

  way-registered :
      {ast' : Ast} {redecls : List ℕ}
      → make_way printed ast frame (is_empty up) (get_ns_table frame ns) name d
        ≡ registered (ast', redecls)
      → pkl_env_register printed ast (frame ∷ up) ns name d ≡ registered (with_decl ast' redecls)
  unfolding pkl_env_register register_decl
  way-registered e = rw (e, register_decl, pkl_env_register)

  way-rejected :
      make_way printed ast frame (is_empty up) (get_ns_table frame ns) name d ≡ rejected
      → pkl_env_register printed ast (frame ∷ up) ns name d ≡ rejected
  unfolding pkl_env_register register_decl
  way-rejected e = rw (e, register_decl, pkl_env_register)

  way-aborted :
      make_way printed ast frame (is_empty up) (get_ns_table frame ns) name d ≡ aborted
      → pkl_env_register printed ast (frame ∷ up) ns name d ≡ aborted
  unfolding pkl_env_register register_decl
  way-aborted e = rw (e, register_decl, pkl_env_register)

  module _ (found : ℕ) (h : get_registered ast (get_ns_table frame ns) name ≡ some found) where
    make_way-redefine :
        is_empty up ≡ true
        → (ast found).immutable_p ≡ false
        → make_way printed ast frame (is_empty up) (get_ns_table frame ns) name d
          ≡ redefine printed ast frame.redecls name found d
    unfolding make_way
    make_way-redefine t m = rw (h, make_way, t, m)

    redefine-Case :
        is_empty up ≡ true
        → (ast found).immutable_p ≡ false
        → Case (pkl_env_register printed ast (frame ∷ up) ns name d)
    unfolding redefine
    redefine-Case t m = elim (Option-cases (generation_of ast found)) [
      | inl e ↦ rw (way-aborted (make_way-redefine t m ∙ rw (e, redefine))) (failed found h t m e)
      | inr (g, e) ↦ elim (Bool-cases printed) [
        | inl p ↦
            rw
              (way-registered {ast' = redefined found g} {redecls = d ∷ frame.redecls}
                (make_way-redefine t m ∙ rw (e, redefine, p)))
              (redeclared found g h t m e p)
        | inr p ↦
            rw (way-rejected (make_way-redefine t m ∙ rw (e, redefine, p)))
              (refused found h (inr (inr p)))
      ]
    ]

    found-Case : Case (pkl_env_register printed ast (frame ∷ up) ns name d)
    unfolding make_way
    found-Case = elim (Bool-cases (is_empty up)) [
      | inr t ↦ rw (way-rejected (rw (h, make_way, t))) (refused found h (inl t))
      | inl t ↦ elim (Bool-cases (ast found).immutable_p) [
        | inl m ↦ rw (way-rejected (rw (h, make_way, t, m))) (refused found h (inr (inl m)))
        | inr m ↦ redefine-Case t m
      ]
    ]

  pub register-Case : Case (pkl_env_register printed ast (frame ∷ up) ns name d)
  unfolding make_way
  register-Case = elim (Option-cases (get_registered ast (get_ns_table frame ns) name)) [
    | inl e ↦
        rw (way-registered {ast' = ast} {redecls = frame.redecls} (rw (e, make_way))) (added e)
    | inr (found, e) ↦ found-Case found e
  ]
