-- ===== src/Pkl/Env/Valid/Tables.antt =====
-- Membership in the tables of an environment (libpoke/pkl-env.c), before and after a registration.
use poke.Base.{
  ℕ, ◌≡◌, ◌≢◌, refl, sym, subst, ◌∙◌, ap, ◌==◌, List, [], ◌∷◌, some, Bool-cases, ◌⊎◌, inl, inr,
  ==_iff,
}
use poke.Pkl.Text.{Text, streq}
use poke.Pkl.Text.Laws.{streq→eq}
use poke.Pkl.Decls.{
  Kind, var_kind, type_kind, func_kind, unit_kind, Namespace, ns_main, ns_units, Ast, Hash, Frame,
  Env, find_in, get_registered, hash_string,
}
use poke.Pkl.Env.{get_ns_table, set_ns_table, chained, numbered}

abbrev pub In : ℕ → List ℕ → Type 0
In d [] = ⊥
In d (t ∷ chain) = (t ≡ d) ⊎ In d chain

abbrev pub InTable : Hash → ℕ → Type 0
InTable table d = (h : ℕ) × In d (table h)

-- The declaration stands in a table of that namespace.
abbrev pub InEnv : Env → Namespace → ℕ → Type 0
InEnv [] ns d = ⊥
InEnv (frame ∷ up) ns d = InTable (get_ns_table frame ns) d ⊎ InEnv up ns d

pub find_in-In :
    (ast : Ast) (name : Text) (chain : List ℕ) {t : ℕ}
    → find_in ast name chain ≡ some t
    → In t chain × ((ast t).name ≡ name)
unfolding find_in
find_in-In ast name [] h = absurd (cc)
find_in-In ast name (x ∷ chain) {t} h = elim (Bool-cases (streq (ast x).name name)) [
  | inl e ↦
      let q : x ≡ t = let f : some x ≡ some t = rw e at h in cc f in
      (inl q, rw (← q) (streq→eq _ _ e))
  | inr e ↦ let (i, n) = find_in-In ast name chain (rw e at h) in (inr i, n)
]

pub get_registered-InTable :
    (ast : Ast) (table : Hash) (name : Text) {t : ℕ}
    → get_registered ast table name ≡ some t
    → InTable table t × ((ast t).name ≡ name)
unfolding get_registered
get_registered-InTable ast table name h = elim (Bool-cases (streq name [])) [
  | inl e ↦ absurd (cc (rw e at h))
  | inr e ↦
      let (i, n) = find_in-In ast name (table (hash_string name)) (rw e at h) in
      ((hash_string name, i), n)
]

pub get_ns_table-numbered :
    (kind : Kind) (frame : Frame) (ns : Namespace)
    → get_ns_table (numbered kind frame).1 ns ≡ get_ns_table frame ns
unfolding get_ns_table numbered
get_ns_table-numbered var_kind frame ns_main = refl
get_ns_table-numbered var_kind frame ns_units = refl
get_ns_table-numbered type_kind frame ns_main = refl
get_ns_table-numbered type_kind frame ns_units = refl
get_ns_table-numbered func_kind frame ns_main = refl
get_ns_table-numbered func_kind frame ns_units = refl
get_ns_table-numbered unit_kind frame ns_main = refl
get_ns_table-numbered unit_kind frame ns_units = refl

pub Namespace-cases : (ns' ns : Namespace) → (ns' ≡ ns) ⊎ (ns' ≢ ns)
Namespace-cases ns_main ns_main = inl refl
Namespace-cases ns_main ns_units = inr (cc)
Namespace-cases ns_units ns_main = inr (cc)
Namespace-cases ns_units ns_units = inl refl

module _ (frame : Frame) (redecls : List ℕ) (table : Hash) where
  pub get_ns_table-set_self :
      (ns : Namespace)
      → get_ns_table (set_ns_table (record frame { redecls = redecls }) ns table) ns ≡ table
  unfolding get_ns_table set_ns_table
  get_ns_table-set_self ns_main = refl
  get_ns_table-set_self ns_units = refl

  pub get_ns_table-set_ne :
      (ns ns' : Namespace)
      → ns' ≢ ns
      → get_ns_table (set_ns_table (record frame { redecls = redecls }) ns table) ns'
        ≡ get_ns_table frame ns'
  unfolding get_ns_table set_ns_table
  get_ns_table-set_ne ns_main ns_main n = absurd (n refl)
  get_ns_table-set_ne ns_main ns_units n = refl
  get_ns_table-set_ne ns_units ns_main n = refl
  get_ns_table-set_ne ns_units ns_units n = absurd (n refl)

-- A declaration in the chained table is the new one or was there.
pub InTable-chained :
    (table : Hash) (name : Text) (d t : ℕ)
    → InTable (chained table name d) t
    → (d ≡ t) ⊎ InTable table t
InTable-chained table name d t (h, i) = elim (Bool-cases (h == hash_string name)) [
  | inl e ↦ let j : In t (d ∷ table h) = rw e at i in elim j [ inl q ↦ inl q | inr k ↦ inr (h, k) ]
  | inr e ↦ inr (h, rw e at i)
]

In-chained :
    (table : Hash) (name : Text) (d h t : ℕ) → In t (table h) → In t (chained table name d h)
In-chained table name d h t i = elim (Bool-cases (h == hash_string name)) [
  | inl e ↦ rw e (inr i)
  | inr e ↦ rw e i
]

module _ (kind : Kind) (frame : Frame) (redecls : List ℕ) (ns : Namespace) (name : Text)
    (d : ℕ) where
  -- The frame with the declaration in its table and counted.
  abbrev pub grown_frame : Frame
  grown_frame =
      (numbered kind (
        set_ns_table (record frame { redecls = redecls }) ns
          (chained (get_ns_table frame ns) name d))).1

  pub get_ns_table-grown_self : get_ns_table grown_frame ns ≡ chained (get_ns_table frame ns) name d
  get_ns_table-grown_self =
      get_ns_table-numbered kind _ ns ∙ get_ns_table-set_self frame redecls _ ns

  pub get_ns_table-grown_ne :
      (ns' : Namespace) → ns' ≢ ns → get_ns_table grown_frame ns' ≡ get_ns_table frame ns'
  get_ns_table-grown_ne ns' n =
      get_ns_table-numbered kind _ ns' ∙ get_ns_table-set_ne frame redecls _ ns ns' n

  pub InTable-grown :
      (ns' : Namespace) (t : ℕ)
      → InTable (get_ns_table grown_frame ns') t
      → ((d ≡ t) × (ns ≡ ns')) ⊎ InTable (get_ns_table frame ns') t
  InTable-grown ns' t i = elim (Namespace-cases ns' ns) [
    | inl e ↦
        let i' : InTable (chained (get_ns_table frame ns) name d) t =
          subst (λ table. InTable table t)
            (ap (get_ns_table grown_frame) e ∙ get_ns_table-grown_self) i in
        elim (InTable-chained (get_ns_table frame ns) name d t i') [
          | inl q ↦ inl (q, sym e)
          | inr j ↦ inr (subst (λ n. InTable (get_ns_table frame n) t) (sym e) j)
        ]
    | inr n ↦ inr (subst (λ table. InTable table t) (get_ns_table-grown_ne ns' n) i)
  ]

  InTable-grown_at :
      (ns' : Namespace) (t : ℕ)
      → InTable (get_ns_table frame ns') t ⊎ ((ns' ≡ ns) × (d ≡ t))
      → InTable (get_ns_table grown_frame ns') t
  InTable-grown_at ns' t i = elim (Namespace-cases ns' ns) [
    | inr n ↦ elim i [
      | inl j ↦ subst (λ table. InTable table t) (sym (get_ns_table-grown_ne ns' n)) j
      | inr q ↦ absurd (n q.0)
    ]
    | inl e ↦
        let table = get_ns_table frame ns in
        subst (λ n. InTable (get_ns_table grown_frame n) t) (sym e)
          (subst (λ table. InTable table t) (sym get_ns_table-grown_self)
            (elim i [
              | inr q ↦ (
                hash_string name,
                rw ((==_iff (hash_string name) (hash_string name)).1 refl) (inl q.1),
              )
              | inl j ↦
                  let (h, k) = subst (λ n. InTable (get_ns_table frame n) t) e j in
                  (h, In-chained table name d h t k)
            ]))
  ]

  pub InTable-grown_old :
      (ns' : Namespace) (t : ℕ)
      → InTable (get_ns_table frame ns') t
      → InTable (get_ns_table grown_frame ns') t
  InTable-grown_old ns' t i = InTable-grown_at ns' t (inl i)

  pub InTable-grown_new : InTable (get_ns_table grown_frame ns) d
  InTable-grown_new = InTable-grown_at ns d (inr (refl, refl))
