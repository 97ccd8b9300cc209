-- ===== src/Pkl/Env/Lookup.antt =====
-- Lookup in the compile-time environment (libpoke/pkl-env.c) after a registration.
pub mod Congr
use poke.Base.{
  ℕ, ◌+◌, ◌≡◌, ◌≢◌, refl, sym, subst, ◌∙◌, ap, ◌==◌, ◌&&◌, Bool, true, false, if◌then◌else◌, List,
  [], ◌∷◌, Option, none, some, arith, Bool-cases, ◌⊎◌, inl, inr, ==_iff,
}
use mathlib.Core.Bool.{false≢true}
use native.Mathlib.Decide.{ℕ_discrete}
use poke.Pkl.Text.{Text, streq}
use poke.Pkl.Text.Laws.{IsPlain, streq_refl, streq_ne, streq→eq, append-ne_plain}
use poke.Pkl.Decls.{
  Kind, var_kind, type_kind, func_kind, unit_kind, Namespace, ns_main, ns_units, Ast, Decl, Frame,
  Env, get_registered, hash_string,
}
use poke.Pkl.Env.{
  Registered, registered, get_ns_table, numbered, ordered, set_ns_table, chained, pkl_env_register,
  pkl_env_lookup, lookup_1,
}
use poke.Pkl.Env.Cases.{
  Case, added, redeclared, refused, failed, with_decl, redefined, register-Case,
}
use poke.Pkl.Env.Valid.{
  IsValid, IsNew, InEnv, InTable, get_registered-InTable, grown_frame, get_ns_table-grown_self,
  get_ns_table-grown_ne, Namespace-cases, namespace_of, field-ordered, field-redefined,
  name-redefined_self, name-redefined_ne, write_self, write_ne,
}
use Congr.{
  get_registered_congr, get_registered-chained_self, get_registered-chained_skip, lookup_1_congr,
  lookup_1-found, lookup_1-same_head,
}

abbrev pub same_ns : Namespace → Namespace → Bool
same_ns ns_main ns_main = true
same_ns ns_units ns_units = true
same_ns _ _ = false

same_ns_ne : (ns' ns : Namespace) → ns' ≢ ns → same_ns ns' ns ≡ false
same_ns_ne ns_main ns_main n = absurd (n refl)
same_ns_ne ns_main ns_units n = refl
same_ns_ne ns_units ns_main n = refl
same_ns_ne ns_units ns_units n = absurd (n refl)

same_ns_refl : (ns : Namespace) → same_ns ns ns ≡ true
same_ns_refl ns_main = refl
same_ns_refl ns_units = refl

-- The place that the next declaration of a kind gets in a frame.
abbrev pub next_order : Kind → Frame → ℕ
next_order kind frame = (numbered kind frame).0

pub next_order-set :
    (kind : Kind) (frame : Frame) (redecls : List ℕ) (ns : Namespace) (table : ℕ → List ℕ)
    → next_order kind (set_ns_table (record frame { redecls = redecls }) ns table)
      ≡ next_order kind frame
unfolding numbered set_ns_table
next_order-set var_kind frame redecls ns_main table = refl
next_order-set var_kind frame redecls ns_units table = refl
next_order-set type_kind frame redecls ns_main table = refl
next_order-set type_kind frame redecls ns_units table = refl
next_order-set func_kind frame redecls ns_main table = refl
next_order-set func_kind frame redecls ns_units table = refl
next_order-set unit_kind frame redecls ns_main table = refl
next_order-set unit_kind frame redecls ns_units table = refl

module _ (printed : Bool) (ast : Ast) (frame : Frame) (up : Env) (ns : Namespace) (name : Text)
    (d : ℕ) (ok : IsValid ast (frame ∷ up)) (new : IsNew ast (frame ∷ up) ns name d) where
  -- The declarations before the new one is put in its table.
  record Ready (ast' : Ast) : Type 0 where
    named : (ast' d).name ≡ name
    same_kind : (ast' d).kind ≡ (ast d).kind
    same_order : (k : ℕ) → (ast' k).order ≡ (ast k).order
    same_names :
        (ns' : Namespace) (name' : Text)
        → IsPlain name'
        → (ns' ≢ ns) ⊎ (name' ≢ name)
        → (t : ℕ) → InEnv (frame ∷ up) ns' t
        → streq (ast' t).name name' ≡ streq (ast t).name name'

  module _ (ast' : Ast) (redecls : List ℕ) (ready : Ready ast') where
    abbrev counted : Frame
    counted =
        set_ns_table (record frame { redecls = redecls }) ns
          (chained (get_ns_table frame ns) name d)

    abbrev final : Ast
    final = ordered ast' counted d

    final-name : (k : ℕ) → (final k).name ≡ (ast' k).name
    final-name = field-ordered (λ r. r.name) ast' counted d (λ r o. refl)

    final-order :
        (ns' : Namespace) (t : ℕ) → InEnv (frame ∷ up) ns' t → (final t).order ≡ (ast t).order
    final-order ns' t i =
        ap (λ (r : Decl). r.order)
          (write_ne ast' d _ t (λ q. new.unknown ns' (subst (λ k. InEnv (frame ∷ up) ns' k) q i)))
        ∙ ready.same_order t

    final-order_self : (final d).order ≡ next_order (ast d).kind frame
    final-order_self =
        ap (λ (r : Decl). r.order) (write_self ast' d _)
        ∙ next_order-set (ast' d).kind frame redecls ns _
        ∙ ap (λ k. next_order k frame) ready.same_kind

    lookup_self :
        lookup_1 final (grown_frame (ast' d).kind frame redecls ns name d ∷ up) ns name 0
        ≡ some (d, 0, next_order (ast d).kind frame)
    lookup_self =
        lookup_1-found final (grown_frame (ast' d).kind frame redecls ns name d) up ns name 0 (
          ap (λ table. get_registered final table name)
            (get_ns_table-grown_self (ast' d).kind frame redecls ns name d)
          ∙ get_registered-chained_self final (get_ns_table frame ns) name d
              (streq_ne name [] new.spelled) (rw (final-name d, ready.named) (streq_refl name)))
        ∙ ap (λ o. some (d, 0, o)) final-order_self

    head_kept :
        (ns' : Namespace) (name' : Text)
        → (ns' ≢ ns) ⊎ (name' ≢ name)
        → get_registered final
            (get_ns_table (grown_frame (ast' d).kind frame redecls ns name d) ns')
            name'
          ≡ get_registered final (get_ns_table frame ns') name'
    head_kept ns' name' differ = elim (Namespace-cases ns' ns) [
      | inr n ↦
          ap (λ table. get_registered final table name')
            (get_ns_table-grown_ne (ast' d).kind frame redecls ns name d ns' n)
      | inl e ↦
          let name_differs : name' ≢ name = elim differ [ inl n ↦ absurd (n e) | inr n ↦ n ] in
          rw e (
            ap (λ table. get_registered final table name')
              (get_ns_table-grown_self (ast' d).kind frame redecls ns name d)
            ∙ get_registered-chained_skip final (get_ns_table frame ns) name d name'
                (rw (final-name d, ready.named) (streq_ne name name' (λ q. name_differs (sym q)))))
    ]

    lookup_other :
        (ns' : Namespace) (name' : Text)
        → IsPlain name'
        → (ns' ≢ ns) ⊎ (name' ≢ name)
        → lookup_1 final (grown_frame (ast' d).kind frame redecls ns name d ∷ up) ns' name' 0
          ≡ lookup_1 ast (frame ∷ up) ns' name' 0
    lookup_other ns' name' plain differ =
        let names : (t : ℕ)
            → InEnv (frame ∷ up) ns' t
            → streq (final t).name name' ≡ streq (ast t).name name' =
          λ t i.
            ap (λ s. streq s name') (final-name t) ∙ ready.same_names ns' name' plain differ t i in
        lookup_1-same_head ast final ns' name' frame
          (grown_frame (ast' d).kind frame redecls ns name d) up 0
          (head_kept ns' name' differ
            ∙ get_registered_congr ast final name' (get_ns_table frame ns')
                (λ t i. names t (inl i)))
          (λ t i. final-order ns' t (inl i))
          (lookup_1_congr ast final ns' name' up 1 (λ t i. names t (inr i))
            (λ t i. final-order ns' t (inr i)))

    lookup_both :
        (ns' : Namespace) (name' : Text)
        → IsPlain name'
        → lookup_1 final (grown_frame (ast' d).kind frame redecls ns name d ∷ up) ns' name' 0 ≡ (
            if same_ns ns' ns && streq name' name
            then some (d, 0, next_order (ast d).kind frame)
            else lookup_1 ast (frame ∷ up) ns' name' 0)
    lookup_both ns' name' plain = elim (Namespace-cases ns' ns) [
      | inr n ↦ rw (same_ns_ne ns' ns n) (lookup_other ns' name' plain (inl n))
      | inl e ↦ elim (Bool-cases (streq name' name)) [
        | inl f ↦ rw (e, streq→eq name' name f, same_ns_refl ns, streq_refl name) lookup_self
        | inr f ↦
            let n : name' ≢ name =
              λ q. false≢true (sym f ∙ ap (λ s. streq s name) q ∙ streq_refl name) in
            let g : same_ns ns' ns ≡ true = ap (λ n. same_ns n ns) e ∙ same_ns_refl ns in
            rw (g, f) (lookup_other ns' name' plain (inr n))
      ]
    ]

  added-Ready : Ready ast
  added-Ready = record {
    named = new.named;
    same_kind = refl;
    same_order = λ k. refl;
    same_names = λ ns' name' plain differ t i. refl;
  }

  redefined-Ready :
      (found g : ℕ)
      → get_registered ast (get_ns_table frame ns) name ≡ some found
      → Ready (redefined printed ast frame up ns name d found g)
  redefined-Ready found g h =
      let (there, found-name) = get_registered-InTable ast (get_ns_table frame ns) name h in
      let d≢found : d ≢ found =
        λ q. new.unknown ns (subst (λ k. InEnv (frame ∷ up) ns k) (sym q) (inl there)) in
      record {
        named = name-redefined_ne printed ast frame up ns name d found g d d≢found ∙ new.named;
        same_kind =
            field-redefined printed ast frame up ns name d found g (λ r. r.kind) (λ r n. refl)
              (λ r p. refl) d;
        same_order =
            field-redefined printed ast frame up ns name d found g (λ r. r.order) (λ r n. refl)
              (λ r p. refl);
        same_names = λ ns' name' plain differ t i. elim (ℕ_discrete t found) [
          | no n ↦
              ap (λ s. streq s name') (name-redefined_ne printed ast frame up ns name d found g t n)
          | yes q ↦
              let differs : name ≢ name' = elim differ [
                | inr n ↦ λ r. n (sym r)
                | inl n ↦ absurd (
                    n (
                      sym (ok.fits ns' t i)
                      ∙ ap (λ k. namespace_of (ast k).kind) q
                      ∙ ok.fits ns found (inl there)))
              ] in
              ap (λ k. streq (redefined printed ast frame up ns name d found g k).name name') q
              ∙ ap (λ s. streq s name') (name-redefined_self printed ast frame up ns name d found g)
              ∙ streq_ne _ name' (append-ne_plain name _ name' new.plain plain)
              ∙ sym (streq_ne name name' differs)
              ∙ ap (λ s. streq s name') (sym found-name)
              ∙ ap (λ k. streq (ast k).name name') (sym q)
        ];
      }

  after-Case :
      {ast' : Ast} {env' : Env}
      → Case printed ast frame up ns name d (registered (ast', env'))
      → (ns' : Namespace) (name' : Text) → IsPlain name'
      → pkl_env_lookup ast' env' ns' name' ≡ (
          if same_ns ns' ns && streq name' name
          then some (d, 0, next_order (ast d).kind frame)
          else pkl_env_lookup ast (frame ∷ up) ns' name')
  unfolding pkl_env_lookup
  after-Case (added h) = lookup_both ast frame.redecls added-Ready
  after-Case (redeclared found g h t m e p) =
      lookup_both (redefined printed ast frame up ns name d found g) (d ∷ frame.redecls)
        (redefined-Ready found g h)

  -- In a valid environment, once a new declaration is registered a lookup of its name in its namespace
  -- gives it, in the innermost frame and at the next place of its kind; a lookup of any other name that
  -- can be spelled, or in the other namespace, gives what it gave.
  pub pkl_env_lookup-register :
      {ast' : Ast} {env' : Env}
      → pkl_env_register printed ast (frame ∷ up) ns name d ≡ registered (ast', env')
      → (ns' : Namespace) (name' : Text) → IsPlain name'
      → pkl_env_lookup ast' env' ns' name' ≡ (
          if same_ns ns' ns && streq name' name
          then some (d, 0, next_order (ast d).kind frame)
          else pkl_env_lookup ast (frame ∷ up) ns' name')
  pkl_env_lookup-register h =
      after-Case (
        subst (Case printed ast frame up ns name d) h
          (register-Case printed ast frame up ns name d))
