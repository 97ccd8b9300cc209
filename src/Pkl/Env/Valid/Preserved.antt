-- ===== src/Pkl/Env/Valid/Preserved.antt =====
-- A registration (libpoke/pkl-env.c) keeps the invariant, and no assertion of it fails.
use poke.Base.{
  ℕ, ◌+◌, ◌^◌, ◌<◌, ◌≡◌, ◌≢◌, refl, sym, subst, ◌∙◌, ap, Bool, true, false, List, [], ◌∷◌, none,
  some, Option-cases, ◌↔◌, ◌⊎◌, inl, inr,
}
use poke.Pkl.Text.{Text}
use poke.Pkl.Text.Laws.{IsPlain}
use poke.Pkl.Decls.{
  Kind, unit_kind, Namespace, ns_main, ns_units, Ast, Frame, Env, generation_in, generation_of,
  get_registered,
}
use poke.Pkl.Env.{
  Registered, registered, rejected, get_ns_table, is_empty, ordered, set_ns_table, chained,
  pkl_env_register,
}
use poke.Pkl.Env.Cases.{
  Case, added, redeclared, refused, failed, with_decl, redefined, register-Case,
}
use poke.Pkl.Env.Valid.Tables.{InEnv, get_registered-InTable, InTable-grown}
use poke.Pkl.Env.Valid.Names.{
  field-ordered, field-redefined, name-redefined_self, name-redefined_ne, prev-redefined_self,
  prev-redefined_ne, generation_in-name, generation_in-plain, generation_of-none,
  generation_of-some,
}

abbrev pub namespace_of : Kind → Namespace
namespace_of unit_kind = ns_units
namespace_of _ = ns_main

pub record IsValid (ast : Ast) (env : Env) : Type 0 where
  pub fits : (ns : Namespace) (t : ℕ) → InEnv env ns t → namespace_of (ast t).kind ≡ ns
  pub generations :
      (ns : Namespace) (t : ℕ) → InEnv env ns t → (g : ℕ) × (generation_of ast t ≡ some g)

-- A declaration that the compiler has just made, under a name that the language can spell, which no
-- table has yet; and room in an `int` for one more generation.
pub record IsNew (ast : Ast) (env : Env) (ns : Namespace) (name : Text) (d : ℕ) : Type 0 where
  pub unknown : (ns' : Namespace) → ¬ (InEnv env ns' d)
  pub no_prev : (ast d).prev_decl ≡ none
  pub named : (ast d).name ≡ name
  pub spelled : name ≢ []
  pub plain : IsPlain name
  pub fits : namespace_of (ast d).kind ≡ ns
  pub room :
      (ns' : Namespace) (t g : ℕ) → InEnv env ns' t → generation_of ast t ≡ some g → g + 1 < 2 ^ 31

generation_of_congr :
    (ast ast' : Ast) (t : ℕ)
    → (ast' t).prev_decl ≡ (ast t).prev_decl
    → ((p : ℕ) → (ast t).prev_decl ≡ some p → (ast' p).name ≡ (ast p).name)
    → generation_of ast' t ≡ generation_of ast t
generation_of_congr ast ast' t prev names = elim (Option-cases (ast t).prev_decl) [
  | inl e ↦ generation_of-none ast' t (prev ∙ e) ∙ sym (generation_of-none ast t e)
  | inr (p, e) ↦
      generation_of-some ast' t p (prev ∙ e)
      ∙ ap generation_in (names p e)
      ∙ sym (generation_of-some ast t p e)
]

module _ (printed : Bool) (ast : Ast) (frame : Frame) (up : Env) (ns : Namespace) (name : Text)
    (d : ℕ) (ok : IsValid ast (frame ∷ up)) (new : IsNew ast (frame ∷ up) ns name d) where
  with_decl-IsValid :
      (ast' : Ast) (redecls : List ℕ)
      → ((k : ℕ) → (ast' k).kind ≡ (ast k).kind)
      → ((ns' : Namespace) (t : ℕ)
          → InEnv (frame ∷ up) ns' t
          → (g : ℕ) × (generation_of ast' t ≡ some g))
      → ((g : ℕ) × (generation_of ast' d ≡ some g))
      → IsValid
          (with_decl printed ast frame up ns name d ast' redecls).0
          (with_decl printed ast frame up ns name d ast' redecls).1
  with_decl-IsValid ast' redecls kinds gens gen_d =
      let frame' =
        set_ns_table (record frame { redecls = redecls }) ns
          (chained (get_ns_table frame ns) name d) in
      let final = ordered ast' frame' d in
      let kind_at : (k : ℕ) → (final k).kind ≡ (ast k).kind =
        λ k. field-ordered (λ r. r.kind) ast' frame' d (λ r o. refl) k ∙ kinds k in
      let gen_at : (k : ℕ) → generation_of final k ≡ generation_of ast' k = λ k.
        generation_of_congr ast' final k
          (field-ordered (λ r. r.prev_decl) ast' frame' d (λ r o. refl) k)
          (λ p e. field-ordered (λ r. r.name) ast' frame' d (λ r o. refl) p) in
      record {
        fits = λ ns' t i. elim i [
          | inr j ↦ ap namespace_of (kind_at t) ∙ ok.fits ns' t (inr j)
          | inl j ↦ elim (InTable-grown (ast' d).kind frame redecls ns name d ns' t j) [
            | inr k ↦ ap namespace_of (kind_at t) ∙ ok.fits ns' t (inl k)
            | inl q ↦
                ap namespace_of (kind_at t ∙ ap (λ k. (ast k).kind) (sym q.0)) ∙ new.fits ∙ q.1
          ]
        ];
        generations = λ ns' t i. elim i [
          | inr j ↦ let (g, e) = gens ns' t (inr j) in (g, gen_at t ∙ e)
          | inl j ↦ elim (InTable-grown (ast' d).kind frame redecls ns name d ns' t j) [
            | inr k ↦ let (g, e) = gens ns' t (inl k) in (g, gen_at t ∙ e)
            | inl q ↦ let (g, e) = gen_d in (g, gen_at t ∙ ap (generation_of ast') (sym q.0) ∙ e)
          ]
        ];
      }

  found-InEnv :
      {found : ℕ}
      → get_registered ast (get_ns_table frame ns) name ≡ some found
      → InEnv (frame ∷ up) ns found
  found-InEnv h = inl (get_registered-InTable ast (get_ns_table frame ns) name h).0

  module _ (found g : ℕ) (h : get_registered ast (get_ns_table frame ns) name ≡ some found)
      (e : generation_of ast found ≡ some g) where
    abbrev after : Ast
    after = redefined printed ast frame up ns name d found g

    found-name : (ast found).name ≡ name
    found-name = (get_registered-InTable ast (get_ns_table frame ns) name h).1

    generation_of-kept :
        (ns' : Namespace) (t : ℕ)
        → InEnv (frame ∷ up) ns' t
        → generation_of after t ≡ generation_of ast t
    generation_of-kept ns' t i =
        let t≢d : t ≢ d = λ q. new.unknown ns' (subst (λ k. InEnv (frame ∷ up) ns' k) q i) in
        generation_of_congr ast after t
          (prev-redefined_ne printed ast frame up ns name d found g t t≢d)
          (λ p q. name-redefined_ne printed ast frame up ns name d found g p (λ r.
            let (g', f) = ok.generations ns' t i in
            let plain : generation_of ast t ≡ none =
              generation_of-some ast t p q
              ∙ ap (λ k. generation_in (ast k).name) r
              ∙ ap generation_in found-name
              ∙ generation_in-plain name new.plain in
            cc (sym f ∙ plain)))

    generation_of-new : generation_of after d ≡ some (g + 1)
    generation_of-new =
        generation_of-some after d found
          (prev-redefined_self printed ast frame up ns name d found g)
        ∙ ap generation_in (name-redefined_self printed ast frame up ns name d found g)
        ∙ generation_in-name name g new.plain (new.room ns found g (found-InEnv h) e)

  outcome :
      (r : Registered (Ast × Env))
      → Case printed ast frame up ns name d r
      → (r ≡ rejected)
        ⊎ ((ast' : Ast) × (env' : Env) × (r ≡ registered (ast', env')) × IsValid ast' env')
  outcome r (added h) = inr (
    _,
    _,
    refl,
    with_decl-IsValid ast frame.redecls (λ k. refl) ok.generations
        (0, generation_of-none ast d new.no_prev),
  )
  outcome r (redeclared found g h t m e p) = inr (
    _,
    _,
    refl,
    with_decl-IsValid (after found g h e) (d ∷ frame.redecls)
        (λ k.
          field-redefined printed ast frame up ns name d found g (λ r. r.kind) (λ r n. refl)
            (λ r p. refl) k)
        (λ ns' t i.
          let (g', f) = ok.generations ns' t i in (g', generation_of-kept found g h e ns' t i ∙ f))
        (g + 1, generation_of-new found g h e),
  )
  outcome r (refused found h why) = inl refl
  outcome r (failed found h t m e) =
      let (g, f) = ok.generations ns found (found-InEnv h) in absurd (cc (sym f ∙ e))

  -- In a valid environment no assertion fails when a new declaration is registered: it is rejected, or
  -- the environment is valid afterwards.
  pub pkl_env_register-IsValid :
      (pkl_env_register printed ast (frame ∷ up) ns name d ≡ rejected)
      ⊎ ((ast' : Ast) × (env' : Env) × (pkl_env_register printed ast (frame ∷ up) ns name d
            ≡ registered (ast', env'))
          × IsValid ast' env')
  pkl_env_register-IsValid = outcome _ (register-Case printed ast frame up ns name d)

  pub registered-IsValid :
      {ast' : Ast} {env' : Env}
      → Case printed ast frame up ns name d (registered (ast', env'))
      → IsValid ast' env'
  registered-IsValid {ast'} {env'} c = elim (outcome (registered (ast', env')) c) [
    | inl e ↦ absurd (cc e)
    | inr (a, e, q, v) ↦
        let f : ast' ≡ a = cc q in
        let g : env' ≡ e = cc q in
        subst (λ t. IsValid ast' t) (sym g) (subst (λ t. IsValid t e) (sym f) v)
  ]

  abbrev Refusal : Type 0
  Refusal =
      (found : ℕ) × (get_registered ast (get_ns_table frame ns) name ≡ some found)
      × ((is_empty up ≡ false) ⊎ ((ast found).immutable_p ≡ true) ⊎ (printed ≡ false))

  refusal : Case printed ast frame up ns name d rejected → Refusal
  refusal (refused found h why) = (found, h, why)

  rejected_of_refusal :
      (r : Registered (Ast × Env)) → Case printed ast frame up ns name d r → Refusal → r ≡ rejected
  rejected_of_refusal r (added h) (found, f, why) = absurd (cc (sym h ∙ f))
  rejected_of_refusal r (redeclared found g h t m e p) (found', f, why) =
      let q : found' ≡ found = let j : some found' ≡ some found = sym f ∙ h in cc j in
      elim why [
        | inl n ↦ absurd (cc (sym t ∙ n))
        | inr rest ↦ elim rest [
          | inl i ↦ absurd (cc (sym m ∙ ap (λ k. (ast k).immutable_p) (sym q) ∙ i))
          | inr n ↦ absurd (cc (sym p ∙ n))
        ]
      ]
  rejected_of_refusal r (refused found h why) _ = refl
  rejected_of_refusal r (failed found h t m e) _ =
      let (g, f) = ok.generations ns found (found-InEnv h) in absurd (cc (sym f ∙ e))

  -- In a valid environment a new declaration is rejected exactly when the innermost frame has its name
  -- in its namespace already, and that frame is not the top level, or the declaration there is
  -- immutable, or there is no memory for its new name.
  pub pkl_env_register-rejected :
      (pkl_env_register printed ast (frame ∷ up) ns name d ≡ rejected) ↔ (
        (found : ℕ) × (get_registered ast (get_ns_table frame ns) name ≡ some found)
        × ((is_empty up ≡ false) ⊎ ((ast found).immutable_p ≡ true) ⊎ (printed ≡ false)))
  pkl_env_register-rejected =
      let c = register-Case printed ast frame up ns name d in
      (λ h. refusal (subst (Case printed ast frame up ns name d) h c), rejected_of_refusal _ c)
