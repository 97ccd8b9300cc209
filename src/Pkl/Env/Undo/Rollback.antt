-- ===== src/Pkl/Env/Undo/Rollback.antt =====
-- What `decl_rollback` and `env_redecls_free` (libpoke/pkl-env.c) do to the fields of the declarations.
use poke.Base.{
  ℕ, ◌≡◌, refl, sym, ◌∙◌, ap, ◌==◌, true, if◌then◌else◌, List, [], ◌∷◌, Option, none, some,
  Bool-cases, Option-cases, inl, inr,
}
use poke.Pkl.Text.{Text, dollar_of, truncated}
use poke.Pkl.Decls.{Ast, Decl}
use poke.Pkl.Env.Rename.{decl_rollback, rollback_to, redecls_free, cut, rolled}
use poke.Pkl.Env.Valid.{In, field-write}

module _ (ast : Ast) (prev d : ℕ) where
  pub name-rolled :
      (k : ℕ)
      → (rolled ast prev d k).name ≡ (if k == prev then truncated (ast prev).name else (ast k).name)
  name-rolled k =
      field-write (cut ast prev) d (record (cut ast prev d) { prev_decl = none }) (λ r. r.name) refl
        k
      ∙ elim (Bool-cases (k == prev)) [ inl e ↦ rw e | inr e ↦ rw e ]

  pub prev-rolled :
      (k : ℕ) → (rolled ast prev d k).prev_decl ≡ (if k == d then none else (ast k).prev_decl)
  prev-rolled k = elim (Bool-cases (k == d)) [
    | inl e ↦ rw e
    | inr e ↦ rw e (
        field-write ast prev (record (ast prev) { name = truncated (ast prev).name })
          (λ r. r.prev_decl) refl k)
  ]

  field-rolled :
      {A : Type 0} (field : Decl → A)
      → ((r : Decl) (n : Text) → field (record r { name = n }) ≡ field r)
      → ((r : Decl) (p : Option ℕ) → field (record r { prev_decl = p }) ≡ field r)
      → (k : ℕ) → field (rolled ast prev d k) ≡ field (ast k)
  field-rolled field same_n same_p k =
      field-write (cut ast prev) d (record (cut ast prev d) { prev_decl = none }) field (same_p _ _)
        k
      ∙ field-write ast prev (record (ast prev) { name = truncated (ast prev).name }) field
          (same_n _ _) k

module _ (ast : Ast) (d : ℕ) where
  decl_rollback-to :
      {prev : ℕ} → (ast d).prev_decl ≡ some prev → decl_rollback ast d ≡ rollback_to ast d prev
  unfolding decl_rollback
  decl_rollback-to e = rw (e, decl_rollback)

  pub decl_rollback-rolled :
      (prev : ℕ) (s : Text)
      → (ast d).prev_decl ≡ some prev
      → dollar_of (ast prev).name ≡ some s
      → decl_rollback ast d ≡ some (rolled ast prev d)
  unfolding rollback_to
  decl_rollback-rolled prev s e f = decl_rollback-to e ∙ rw (f, rollback_to)

  decl_rollback-none :
      (prev : ℕ)
      → (ast d).prev_decl ≡ some prev
      → dollar_of (ast prev).name ≡ none
      → decl_rollback ast d ≡ none
  unfolding rollback_to
  decl_rollback-none prev e f = decl_rollback-to e ∙ rw (f, rollback_to)

  decl_rollback-alone : (ast d).prev_decl ≡ none → decl_rollback ast d ≡ none
  unfolding decl_rollback
  decl_rollback-alone e = rw (e, decl_rollback)

  decl_rollback-some :
      {ast' : Ast}
      → decl_rollback ast d ≡ some ast'
      → (prev : ℕ) × (s : Text) × ((ast d).prev_decl ≡ some prev)
        × (dollar_of (ast prev).name ≡ some s)
        × (ast' ≡ rolled ast prev d)
  decl_rollback-some {ast'} h = elim (Option-cases (ast d).prev_decl) [
    | inl e ↦ absurd (cc (sym (decl_rollback-alone e) ∙ h))
    | inr (prev, e) ↦ elim (Option-cases (dollar_of (ast prev).name)) [
      | inl f ↦ absurd (cc (sym (decl_rollback-none prev e f) ∙ h))
      | inr (s, f) ↦
          let q : some ast' ≡ some (rolled ast prev d) = sym h ∙ decl_rollback-rolled prev s e f in
          (prev, s, e, f, cc q)
    ]
  ]

pub redecls_free-cons :
    (ast : Ast) (n : ℕ) (redecls : List ℕ) {ast' : Ast}
    → decl_rollback ast n ≡ some ast'
    → redecls_free true ast (n ∷ redecls) ≡ redecls_free true ast' redecls
unfolding redecls_free
redecls_free-cons ast n redecls e = rw (e, redecls_free)

redecls_free-cons_some :
    (ast : Ast) (n : ℕ) (redecls : List ℕ) {final : Ast}
    → redecls_free true ast (n ∷ redecls) ≡ some final
    → (ast' : Ast) × (decl_rollback ast n ≡ some ast')
      × (redecls_free true ast' redecls ≡ some final)
unfolding redecls_free
redecls_free-cons_some ast n redecls h = elim (Option-cases (decl_rollback ast n)) [
  | inl e ↦ absurd (cc (rw (e, redecls_free) at h))
  | inr (ast', e) ↦ (ast', e, rw (e, redecls_free) at h)
]

-- Undoing touches names and previous declarations only.
pub field-redecls_free :
    {A : Type 0} (field : Decl → A)
    → ((r : Decl) (n : Text) → field (record r { name = n }) ≡ field r)
    → ((r : Decl) (p : Option ℕ) → field (record r { prev_decl = p }) ≡ field r)
    → (ast : Ast) (redecls : List ℕ) {final : Ast} → redecls_free true ast redecls ≡ some final
    → (k : ℕ) → field (final k) ≡ field (ast k)
unfolding redecls_free
field-redecls_free field same_n same_p ast [] {final} h k =
    let q : ast ≡ final = cc h in ap (λ a. field (a k)) (sym q)
field-redecls_free field same_n same_p ast (n ∷ redecls) h k =
    let (ast', e, rest) = redecls_free-cons_some ast n redecls h in
    let (prev, s, p, f, q) = decl_rollback-some ast n e in
    field-redecls_free field same_n same_p ast' redecls rest k
    ∙ ap (λ a. field (a k)) q
    ∙ field-rolled ast prev n field same_n same_p k

-- Undoing the same redefinitions in declarations with the same names ends with the same names.
pub redecls_free_congr :
    (a b : Ast) (redecls : List ℕ) {a' : Ast}
    → ((k : ℕ) → (b k).name ≡ (a k).name)
    → ((n : ℕ) → In n redecls → (b n).prev_decl ≡ (a n).prev_decl)
    → redecls_free true a redecls ≡ some a'
    → (b' : Ast) × (redecls_free true b redecls ≡ some b') × ((k : ℕ) → (b' k).name ≡ (a' k).name)
unfolding redecls_free
redecls_free_congr a b [] {a'} names prevs h =
    let q : a ≡ a' = cc h in (b, refl, λ k. names k ∙ ap (λ (t : Ast). (t k).name) q)
redecls_free_congr a b (n ∷ redecls) names prevs h =
    let (a₁, e, rest) = redecls_free-cons_some a n redecls h in
    let (prev, s, p, f, q) = decl_rollback-some a n e in
    let b₁ = rolled b prev n in
    let step : decl_rollback b n ≡ some b₁ =
      decl_rollback-rolled b n prev s (prevs n (inl refl) ∙ p) (ap dollar_of (names prev) ∙ f) in
    let (b', g, same) =
      redecls_free_congr a₁ b₁ redecls
        (λ k.
          name-rolled b prev n k
          ∙ ap (λ t. if k == prev then truncated t else (b k).name) (names prev)
          ∙ ap (λ t. if k == prev then truncated (a prev).name else t) (names k)
          ∙ sym (ap (λ (t : Ast). (t k).name) q ∙ name-rolled a prev n k))
        (λ k i.
          prev-rolled b prev n k
          ∙ ap (λ t. if k == n then none else t) (prevs k (inr i))
          ∙ sym (ap (λ (t : Ast). (t k).prev_decl) q ∙ prev-rolled a prev n k))
        rest in
    (b', redecls_free-cons b n redecls step ∙ g, same)
