-- ===== src/Pkl/Env/Undo/Kept.antt =====
-- A registration in a copy (libpoke/pkl-env.c) can still be undone.
use poke.Base.{
  ℕ, ◌+◌, ◌≡◌, ◌≢◌, refl, sym, subst, ◌∙◌, ap, ◌==◌, Bool, false, List, ◌∷◌, none, some, arith,
  Bool-cases, if_true, if_false, inl, inr, ==_iff,
}
use mathlib.Core.Bool.{false≢true}
use poke.Pkl.Text.{Text, dollar_of, truncated, decimal}
use poke.Pkl.Text.Laws.{dollar_of-append, truncated-append}
use poke.Pkl.Decls.{Namespace, Ast, Frame, Env, get_registered}
use poke.Pkl.Env.{ordered, get_ns_table}
use poke.Pkl.Env.Rename.{rolled}
use poke.Pkl.Env.Cases.{with_decl, redefined}
use poke.Pkl.Env.Valid.{
  IsValid, IsNew, In, InEnv, grown_frame, get_registered-InTable, field-ordered,
  name-redefined_self, name-redefined_ne, prev-redefined_self, prev-redefined_ne,
}
use poke.Pkl.Env.Undo.Rollback.{
  redecls_free_congr, redecls_free-cons, decl_rollback-rolled, name-rolled, prev-rolled,
}
use poke.Pkl.Env.Undo.Session.{Undoes, IsCopy, IsClean, base, base_redecls, InEnv-base}

Undoes-congr :
    (ast₀ a b : Ast) (redecls : List ℕ)
    → ((k : ℕ) → (b k).name ≡ (a k).name)
    → ((n : ℕ) → In n redecls → (b n).prev_decl ≡ (a n).prev_decl)
    → Undoes ast₀ a redecls
    → Undoes ast₀ b redecls
Undoes-congr ast₀ a b redecls names prevs u =
    let (b', e, same) = redecls_free_congr a b redecls names prevs u.undoes in
    record { undone = b'; undoes = e; same_names = λ k. same k ∙ u.same_names k }

Undoes-ordered :
    (ast₀ ast : Ast) (frame : Frame) (d : ℕ) (redecls : List ℕ)
    → Undoes ast₀ ast redecls
    → Undoes ast₀ (ordered ast frame d) redecls
Undoes-ordered ast₀ ast frame d redecls u =
    Undoes-congr ast₀ ast (ordered ast frame d) redecls
      (field-ordered (λ r. r.name) ast frame d (λ r o. refl))
      (λ n i. field-ordered (λ r. r.prev_decl) ast frame d (λ r o. refl) n) u

module _ (printed : Bool) (ast : Ast) (frame : Frame) (up : Env) (ns : Namespace) (name : Text)
    (d : ℕ) (new : IsNew ast (frame ∷ up) ns name d) where
  module _ (found g : ℕ) (h : get_registered ast (get_ns_table frame ns) name ≡ some found) where
    abbrev after : Ast
    after = redefined printed ast frame up ns name d found g

    abbrev back : Ast
    back = rolled after found d

    found-name : (ast found).name ≡ name
    found-name = (get_registered-InTable ast (get_ns_table frame ns) name h).1

    name-back : (k : ℕ) → (back k).name ≡ (ast k).name
    name-back k = name-rolled after found d k ∙ elim (Bool-cases (k == found)) [
      | inl e ↦
          if_true (truncated (after found).name) (after k).name e
          ∙ ap truncated (name-redefined_self printed ast frame up ns name d found g)
          ∙ truncated-append name (decimal (g + 1)) new.plain
          ∙ sym found-name
          ∙ ap (λ j. (ast j).name) (sym ((==_iff k found).0 e))
      | inr e ↦
          if_false (truncated (after found).name) (after k).name e
          ∙ name-redefined_ne printed ast frame up ns name d found g k
              (λ q. false≢true (sym e ∙ (==_iff k found).1 q))
    ]

    prev-back : (k : ℕ) → k ≢ d → (back k).prev_decl ≡ (ast k).prev_decl
    prev-back k n =
        prev-rolled after found d k
        ∙ if_false none (after k).prev_decl (let e : (k == d) ≡ false = ground arith in e)
        ∙ prev-redefined_ne printed ast frame up ns name d found g k n

    pub Undoes-redefined :
        (ast₀ : Ast) (redecls : List ℕ)
        → ¬ (In d redecls)
        → Undoes ast₀ ast redecls
        → Undoes ast₀ after (d ∷ redecls)
    Undoes-redefined ast₀ redecls absent u =
        let prevs : (k : ℕ) → In k redecls → (back k).prev_decl ≡ (ast k).prev_decl =
          λ k i. prev-back k (λ q. absent (subst (λ j. In j redecls) q i)) in
        let v = Undoes-congr ast₀ ast back redecls name-back prevs u in
        record {
          undone = v.undone;
          undoes =
              redecls_free-cons after d redecls (
                decl_rollback-rolled after d found _
                  (prev-redefined_self printed ast frame up ns name d found g)
                  (ap dollar_of (name-redefined_self printed ast frame up ns name d found g)
                    ∙ dollar_of-append name (decimal (g + 1)) new.plain))
              ∙ v.undoes;
          same_names = v.same_names;
        }

-- The frames other than the top level take a declaration with no redefinition.
module _ (ast₀ : Ast) (printed : Bool) (ast : Ast) (frame : Frame) (up : Env) (ns : Namespace)
    (name : Text) (d : ℕ) (copy : IsCopy ast₀ ast (frame ∷ up))
    (new : IsNew ast (frame ∷ up) ns name d) where
  abbrev pub frame_with : Ast → List ℕ → Frame
  frame_with ast' redecls = grown_frame (ast' d).kind frame redecls ns name d

  pub d-absent : ¬ (In d (base_redecls (frame ∷ up)))
  d-absent i = let (ns', j) = copy.listed d i in new.unknown ns' (InEnv-base (frame ∷ up) ns' d j)

  pub after-IsCopy :
      (ast' : Ast) (redecls : List ℕ)
      → IsValid
          (with_decl printed ast frame up ns name d ast' redecls).0
          (with_decl printed ast frame up ns name d ast' redecls).1
      → ((k : ℕ) → (ast' k).kind ≡ (ast k).kind)
      → ((k : ℕ) → (ast' k).initial ≡ (ast k).initial)
      → IsClean (frame_with ast' redecls ∷ up)
      → ((n : ℕ)
          → In n (base_redecls (frame_with ast' redecls ∷ up))
          → (ns' : Namespace) × InEnv (base (frame_with ast' redecls ∷ up)) ns' n)
      → Undoes ast₀ ast' (base_redecls (frame_with ast' redecls ∷ up))
      → IsCopy ast₀
          (with_decl printed ast frame up ns name d ast' redecls).0
          (with_decl printed ast frame up ns name d ast' redecls).1
  after-IsCopy ast' redecls valid kinds initials clean listed undo = record {
    valid = valid;
    clean = clean;
    listed = listed;
    undo = Undoes-ordered ast₀ ast' _ d _ undo;
    same_kind =
        λ k. field-ordered (λ r. r.kind) ast' _ d (λ r o. refl) k ∙ kinds k ∙ copy.same_kind k;
    same_initial = λ k.
        field-ordered (λ r. r.initial) ast' _ d (λ r o. refl) k ∙ initials k ∙ copy.same_initial k;
  }
