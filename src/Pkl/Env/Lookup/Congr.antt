-- ===== src/Pkl/Env/Lookup/Congr.antt =====
-- When two states of the declarations give the same lookups (libpoke/pkl-env.c).
use poke.Base.{
  ℕ, ◌+◌, ◌≡◌, refl, sym, ◌∙◌, ap, ap₂, ◌==◌, true, false, if◌then◌else◌, List, [], ◌∷◌, none, some,
  Bool-cases, Option-cases, ◌⊎◌, inl, inr, ==_iff,
}
use poke.Pkl.Text.{Text, streq}
use poke.Pkl.Decls.{Namespace, Ast, Frame, Env, Hash, find_in, get_registered, hash_string, ns_main}
use poke.Pkl.Env.{
  get_ns_table, chained, lookup_1, pkl_env_lookup, pkl_env_lookup_type, pkl_env_lookup_var,
  when_type, when_var,
}
use poke.Pkl.Env.Valid.{In, InTable, InEnv, get_registered-InTable}

module _ (ast ast' : Ast) (name : Text) where
  find_in_congr :
      (chain : List ℕ)
      → ((t : ℕ) → In t chain → streq (ast' t).name name ≡ streq (ast t).name name)
      → find_in ast' name chain ≡ find_in ast name chain
  unfolding find_in
  find_in_congr [] same = refl
  find_in_congr (t ∷ chain) same =
      let rest = find_in_congr chain (λ k i. same k (inr i)) in
      elim (Bool-cases (streq (ast t).name name)) [
        | inl e ↦ rw (same t (inl refl), e)
        | inr e ↦ rw (same t (inl refl), e) rest
      ]

  pub get_registered_congr :
      (table : Hash)
      → ((t : ℕ) → InTable table t → streq (ast' t).name name ≡ streq (ast t).name name)
      → get_registered ast' table name ≡ get_registered ast table name
  unfolding get_registered
  get_registered_congr table same =
      ap (λ o. if streq name [] then none else o)
        (find_in_congr (table (hash_string name)) (λ t i. same t (hash_string name, i)))

module _ (ast : Ast) (table : Hash) (name : Text) (d : ℕ) where
  pub get_registered-chained_self :
      streq name [] ≡ false
      → streq (ast d).name name ≡ true
      → get_registered ast (chained table name d) name ≡ some d
  unfolding get_registered find_in
  get_registered-chained_self e f = rw (e, (==_iff (hash_string name) (hash_string name)).1 refl, f)

  pub get_registered-chained_skip :
      (name' : Text)
      → streq (ast d).name name' ≡ false
      → get_registered ast (chained table name d) name' ≡ get_registered ast table name'
  unfolding get_registered find_in
  get_registered-chained_skip name' f = elim (Bool-cases (hash_string name' == hash_string name)) [
    | inl e ↦ rw (e, f)
    | inr e ↦ rw e
  ]

module _ (ast : Ast) (frame : Frame) (up : Env) (ns : Namespace) (name : Text) (n : ℕ) where
  pub lookup_1-found :
      {d : ℕ}
      → get_registered ast (get_ns_table frame ns) name ≡ some d
      → lookup_1 ast (frame ∷ up) ns name n ≡ some (d, n, (ast d).order)
  unfolding lookup_1
  lookup_1-found e = rw (e, lookup_1)

  pub lookup_1-up :
      get_registered ast (get_ns_table frame ns) name ≡ none
      → lookup_1 ast (frame ∷ up) ns name n ≡ lookup_1 ast up ns name (n + 1)
  unfolding lookup_1
  lookup_1-up e = rw (e, lookup_1)

module _ (ast ast' : Ast) (ns : Namespace) (name : Text) where
  -- The first frame may be another one, as long as it has the same answer.
  pub lookup_1-same_head :
      (frame frame' : Frame) (up : Env) (n : ℕ)
      → get_registered ast' (get_ns_table frame' ns) name
        ≡ get_registered ast (get_ns_table frame ns) name
      → ((t : ℕ) → InTable (get_ns_table frame ns) t → (ast' t).order ≡ (ast t).order)
      → lookup_1 ast' up ns name (n + 1) ≡ lookup_1 ast up ns name (n + 1)
      → lookup_1 ast' (frame' ∷ up) ns name n ≡ lookup_1 ast (frame ∷ up) ns name n
  lookup_1-same_head frame frame' up n same orders rest =
      elim (Option-cases (get_registered ast (get_ns_table frame ns) name)) [
        | inl e ↦
            lookup_1-up ast' frame' up ns name n (same ∙ e)
            ∙ rest
            ∙ sym (lookup_1-up ast frame up ns name n e)
        | inr (d, e) ↦
            lookup_1-found ast' frame' up ns name n (same ∙ e)
            ∙ ap (λ o. some (d, n, o))
                (orders d (get_registered-InTable ast (get_ns_table frame ns) name e).0)
            ∙ sym (lookup_1-found ast frame up ns name n e)
      ]

  pub lookup_1_congr :
      (env : Env) (n : ℕ)
      → ((t : ℕ) → InEnv env ns t → streq (ast' t).name name ≡ streq (ast t).name name)
      → ((t : ℕ) → InEnv env ns t → (ast' t).order ≡ (ast t).order)
      → lookup_1 ast' env ns name n ≡ lookup_1 ast env ns name n
  unfolding lookup_1
  lookup_1_congr [] n names orders = refl
  lookup_1_congr (frame ∷ up) n names orders =
      lookup_1-same_head frame frame up n
        (get_registered_congr ast ast' name (get_ns_table frame ns) (λ t i. names t (inl i)))
        (λ t i. orders t (inl i))
        (lookup_1_congr up (n + 1) (λ t i. names t (inr i)) (λ t i. orders t (inr i)))

  -- With the same names everywhere the same declaration is found, in the same frame.
  pub lookup_1-same_decl :
      ((t : ℕ) → (ast' t).name ≡ (ast t).name)
      → (env : Env) (n : ℕ)
      → ((lookup_1 ast' env ns name n ≡ none) × (lookup_1 ast env ns name n ≡ none))
        ⊎ ((d back over' over : ℕ) × (lookup_1 ast' env ns name n ≡ some (d, back, over'))
            × (lookup_1 ast env ns name n ≡ some (d, back, over)))
  unfolding lookup_1
  lookup_1-same_decl names [] n = inl (refl, refl)
  lookup_1-same_decl names (frame ∷ up) n =
      let table = get_ns_table frame ns in
      let same : get_registered ast' table name ≡ get_registered ast table name =
        get_registered_congr ast ast' name table (λ t i. ap (λ s. streq s name) (names t)) in
      let rest = lookup_1-same_decl names up (n + 1) in
      elim (Option-cases (get_registered ast table name)) [
        | inr (d, e) ↦ inr (
          d,
          n,
          (ast' d).order,
          (ast d).order,
          lookup_1-found ast' frame up ns name n (same ∙ e),
          lookup_1-found ast frame up ns name n e,
        )
        | inl e ↦
            let up' = lookup_1-up ast' frame up ns name n (same ∙ e) in
            let up₀ = lookup_1-up ast frame up ns name n e in
            elim rest [
              | inl (a, b) ↦ inl (up' ∙ a, up₀ ∙ b)
              | inr (d, back, over', over, a, b) ↦ inr (d, back, over', over, up' ∙ a, up₀ ∙ b)
            ]
      ]

module _ (ast : Ast) (env : Env) (name : Text) where
  type-found :
      {d back over : ℕ}
      → lookup_1 ast env ns_main name 0 ≡ some (d, back, over)
      → pkl_env_lookup_type ast env name ≡ when_type (ast d).kind (ast d).initial
  unfolding pkl_env_lookup_type pkl_env_lookup
  type-found e = rw (e, pkl_env_lookup_type)

  type-none : lookup_1 ast env ns_main name 0 ≡ none → pkl_env_lookup_type ast env name ≡ none
  unfolding pkl_env_lookup_type pkl_env_lookup
  type-none e = rw (e, pkl_env_lookup_type)

  var-found :
      {d back over : ℕ}
      → lookup_1 ast env ns_main name 0 ≡ some (d, back, over)
      → pkl_env_lookup_var ast env name ≡ when_var (ast d).kind (ast d).initial
  unfolding pkl_env_lookup_var pkl_env_lookup
  var-found e = rw (e, pkl_env_lookup_var)

  var-none : lookup_1 ast env ns_main name 0 ≡ none → pkl_env_lookup_var ast env name ≡ none
  unfolding pkl_env_lookup_var pkl_env_lookup
  var-none e = rw (e, pkl_env_lookup_var)

-- So the types and variables that names stand for are the same where kinds and initials are.
module _ (ast ast' : Ast) (env : Env) (name : Text) (names : (t : ℕ) → (ast' t).name ≡ (ast t).name)
    (kinds : (t : ℕ) → (ast' t).kind ≡ (ast t).kind)
    (initials : (t : ℕ) → (ast' t).initial ≡ (ast t).initial) where
  pub pkl_env_lookup_type_congr :
      pkl_env_lookup_type ast' env name ≡ pkl_env_lookup_type ast env name
  pkl_env_lookup_type_congr = elim (lookup_1-same_decl ast ast' ns_main name names env 0) [
    | inl (a, b) ↦ type-none ast' env name a ∙ sym (type-none ast env name b)
    | inr (d, back, over', over, a, b) ↦
        type-found ast' env name a
        ∙ ap₂ when_type (kinds d) (initials d)
        ∙ sym (type-found ast env name b)
  ]

  pub pkl_env_lookup_var_congr : pkl_env_lookup_var ast' env name ≡ pkl_env_lookup_var ast env name
  pkl_env_lookup_var_congr = elim (lookup_1-same_decl ast ast' ns_main name names env 0) [
    | inl (a, b) ↦ var-none ast' env name a ∙ sym (var-none ast env name b)
    | inr (d, back, over', over, a, b) ↦
        var-found ast' env name a
        ∙ ap₂ when_var (kinds d) (initials d)
        ∙ sym (var-found ast env name b)
  ]
