-- ===== src/Pkl/Env/Undo/Steps.antt =====
-- What a registration, and a new frame, do to a copy of the top level (libpoke/pkl-env.c).
use poke.Base.{ℕ, ◌≡◌, ◌≢◌, refl, sym, subst, ◌∙◌, Bool, [], ◌∷◌, inl, inr}
use poke.Pkl.Text.{Text}
use poke.Pkl.Decls.{Namespace, ns_main, ns_units, Ast, Frame, Env}
use poke.Pkl.Env.{registered, get_ns_table, pkl_env_register, new_frame}
use poke.Pkl.Env.Cases.{Case, added, redeclared, redefined, register-Case}
use poke.Pkl.Env.Valid.{
  IsValid, IsNew, In, InEnv, InTable-grown_old, InTable-grown_new, grown_frame, field-redefined,
  registered-IsValid,
}
use poke.Pkl.Env.Undo.Session.{Undoes, IsCopy, redecls-numbered}
use poke.Pkl.Env.Undo.Kept.{after-IsCopy, Undoes-redefined, d-absent}

module _ (ast₀ : Ast) (printed : Bool) (ast : Ast) (frame : Frame) (ns : Namespace) (name : Text)
    (d : ℕ) where
  -- At the top level.
  toplevel-IsCopy :
      IsCopy ast₀ ast (frame ∷ [])
      → IsNew ast (frame ∷ []) ns name d
      → {ast' : Ast} {env' : Env} → Case printed ast frame [] ns name d (registered (ast', env'))
      → IsCopy ast₀ ast' env'
  toplevel-IsCopy copy new (added h) =
      let same = redecls-numbered (ast d).kind frame frame.redecls ns _ in
      after-IsCopy ast₀ printed ast frame [] ns name d copy new ast frame.redecls
        (registered-IsValid printed ast frame [] ns name d copy.valid new (added h)) (λ k. refl)
        (λ k. refl) tt
        (λ n i.
          let (ns', j) = copy.listed n (subst (λ l. In n l) same i) in
          (ns', elim j [ inl q ↦ inl (InTable-grown_old _ _ _ _ _ _ ns' n q) | inr q ↦ inr q ]))
        (subst (λ l. Undoes ast₀ ast l) (sym same) copy.undo)
  toplevel-IsCopy copy new (redeclared found g h t m e p) =
      let after = redefined printed ast frame [] ns name d found g in
      let same = redecls-numbered (after d).kind frame (d ∷ frame.redecls) ns _ in
      after-IsCopy ast₀ printed ast frame [] ns name d copy new after (d ∷ frame.redecls)
        (registered-IsValid printed ast frame [] ns name d copy.valid new
          (redeclared found g h t m e p))
        (field-redefined printed ast frame [] ns name d found g (λ r. r.kind) (λ r n. refl)
          (λ r p. refl))
        (field-redefined printed ast frame [] ns name d found g (λ r. r.initial) (λ r n. refl)
          (λ r p. refl))
        tt
        (λ n i. elim (subst (λ l. In n l) same i) [
          | inl q ↦
              let new_in = InTable-grown_new (after d).kind frame (d ∷ frame.redecls) ns name d in
              let frame' = grown_frame (after d).kind frame (d ∷ frame.redecls) ns name d in
              (ns, subst (λ k. InEnv (frame' ∷ []) ns k) q (inl new_in))
          | inr j ↦
              let (ns', k) = copy.listed n j in
              (ns', elim k [ inl q ↦ inl (InTable-grown_old _ _ _ _ _ _ ns' n q) | inr q ↦ inr q ])
        ])
        (subst (λ l. Undoes ast₀ after l) (sym same)
          (Undoes-redefined printed ast frame [] ns name d new found g h ast₀ frame.redecls
            (d-absent ast₀ printed ast frame [] ns name d copy new) copy.undo))

  inner-IsCopy :
      (outer : Frame) (up : Env)
      → IsCopy ast₀ ast (frame ∷ outer ∷ up)
      → IsNew ast (frame ∷ outer ∷ up) ns name d
      → {ast' : Ast} {env' : Env}
      → Case printed ast frame (outer ∷ up) ns name d (registered (ast', env'))
      → IsCopy ast₀ ast' env'
  inner-IsCopy outer up copy new (added h) =
      after-IsCopy ast₀ printed ast frame (outer ∷ up) ns name d copy new ast frame.redecls
        (registered-IsValid printed ast frame (outer ∷ up) ns name d copy.valid new (added h))
        (λ k. refl) (λ k. refl)
        (redecls-numbered (ast d).kind frame frame.redecls ns _ ∙ copy.clean.0, copy.clean.1)
        copy.listed copy.undo
  inner-IsCopy outer up copy new (redeclared found g h t m e p) = absurd (cc t)

register_nowhere :
    (printed : Bool) (ast : Ast) (ns : Namespace) (name : Text) (d : ℕ) {r : Ast × Env}
    → pkl_env_register printed ast [] ns name d ≢ registered r
unfolding pkl_env_register
register_nowhere printed ast ns name d h = cc h

pub declares-IsCopy :
    (ast₀ : Ast) (printed : Bool) (ast : Ast) (env : Env) (ns : Namespace) (name : Text) (d : ℕ)
    → IsCopy ast₀ ast env
    → IsNew ast env ns name d
    → {ast' : Ast} {env' : Env}
    → pkl_env_register printed ast env ns name d ≡ registered (ast', env')
    → IsCopy ast₀ ast' env'
declares-IsCopy ast₀ printed ast [] ns name d copy new h =
    absurd (register_nowhere printed ast ns name d h)
declares-IsCopy ast₀ printed ast (frame ∷ []) ns name d copy new h =
    toplevel-IsCopy ast₀ printed ast frame ns name d copy new
      (subst (Case printed ast frame [] ns name d) h (register-Case printed ast frame [] ns name d))
declares-IsCopy ast₀ printed ast (frame ∷ outer ∷ up) ns name d copy new h =
    inner-IsCopy ast₀ printed ast frame ns name d outer up copy new (
      subst (Case printed ast frame (outer ∷ up) ns name d) h
        (register-Case printed ast frame (outer ∷ up) ns name d))

InEnv-new : (env : Env) (ns : Namespace) (t : ℕ) → InEnv (new_frame ∷ env) ns t → InEnv env ns t
unfolding get_ns_table
InEnv-new env ns_main t i = elim i [ inl j ↦ absurd j.1 | inr j ↦ j ]
InEnv-new env ns_units t i = elim i [ inl j ↦ absurd j.1 | inr j ↦ j ]

push-IsValid : (ast : Ast) (env : Env) → IsValid ast env → IsValid ast (new_frame ∷ env)
push-IsValid ast env ok = record {
  fits = λ ns t i. ok.fits ns t (InEnv-new env ns t i);
  generations = λ ns t i. ok.generations ns t (InEnv-new env ns t i);
}

pub push-IsCopy :
    (ast₀ ast : Ast) (env : Env) → IsCopy ast₀ ast env → IsCopy ast₀ ast (new_frame ∷ env)
push-IsCopy ast₀ ast [] copy = record {
  valid = push-IsValid ast [] copy.valid;
  clean = tt;
  listed = λ n i. absurd i;
  undo = copy.undo;
  same_kind = copy.same_kind;
  same_initial = copy.same_initial;
}
push-IsCopy ast₀ ast (frame ∷ up) copy = record {
  valid = push-IsValid ast (frame ∷ up) copy.valid;
  clean = (refl, copy.clean);
  listed = copy.listed;
  undo = copy.undo;
  same_kind = copy.same_kind;
  same_initial = copy.same_initial;
}
