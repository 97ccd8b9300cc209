-- ===== src/Pkl/Env/Valid/Names.antt =====
-- What a registration (libpoke/pkl-env.c) does to the fields of the declarations.
use poke.Base.{
  ℕ, ◌+◌, ◌^◌, ◌<◌, ◌≡◌, ◌≢◌, refl, sym, ◌∙◌, ap, ◌==◌, Bool, false, ◌∷◌, Option, none, some, arith,
  Bool-cases, inl, inr, ==_iff,
}
use poke.Pkl.Text.{Text, dollar_of, decimal, atoi}
use poke.Pkl.Text.Laws.{IsPlain, dollar_of-append, atoi_from-decimal_in}
use poke.Pkl.Decls.{
  Ast, Decl, Frame, Env, Namespace, write, rename_decl, generation_name, generation_in,
  generation_of,
}
use poke.Pkl.Env.{numbered, ordered}
use poke.Pkl.Env.Cases.{redefined}

module _ (ast : Ast) (d : ℕ) (new : Decl) where
  pub write_self : write ast d new d ≡ new
  write_self = rw ((==_iff d d).1 refl)

  pub write_ne : (k : ℕ) → k ≢ d → write ast d new k ≡ ast k
  write_ne k n = rw (let e : (k == d) ≡ false = ground arith in e)

  -- A field that the new declaration shares with the old one is everywhere as it was.
  pub field-write :
      {A : Type 0} (field : Decl → A)
      → field new ≡ field (ast d)
      → (k : ℕ) → field (write ast d new k) ≡ field (ast k)
  field-write field same k = elim (Bool-cases (k == d)) [
    | inl e ↦ rw e (same ∙ ap (λ j. field (ast j)) (sym ((==_iff k d).0 e)))
    | inr e ↦ rw e
  ]

-- Everything but the order is as it was after a numbering.
pub field-ordered :
    {A : Type 0} (field : Decl → A) (ast : Ast) (frame : Frame) (d : ℕ)
    → ((r : Decl) (o : ℕ) → field (record r { order = o }) ≡ field r)
    → (k : ℕ) → field (ordered ast frame d k) ≡ field (ast k)
field-ordered field ast frame d same k =
    field-write ast d (record (ast d) { order = (numbered (ast d).kind frame).0 }) field (same _ _)
      k

module _ (printed : Bool) (ast : Ast) (frame : Frame) (up : Env) (ns : Namespace) (name : Text)
    (d found g : ℕ) where
  abbrev renamed : Ast
  renamed = rename_decl ast found (generation_name name (g + 1))

  abbrev after : Ast
  after = redefined printed ast frame up ns name d found g

  -- A redefinition leaves all but names and previous declarations as it was.
  pub field-redefined :
      {A : Type 0} (field : Decl → A)
      → ((r : Decl) (n : Text) → field (record r { name = n }) ≡ field r)
      → ((r : Decl) (p : Option ℕ) → field (record r { prev_decl = p }) ≡ field r)
      → (k : ℕ) → field (after k) ≡ field (ast k)
  field-redefined field same_n same_p k =
      field-write renamed d (record (renamed d) { prev_decl = some found }) field (same_p _ _) k
      ∙ field-write ast found (record (ast found) { name = generation_name name (g + 1) }) field
          (same_n _ _) k

  pub name-redefined_self : (after found).name ≡ generation_name name (g + 1)
  name-redefined_self =
      field-write renamed d (record (renamed d) { prev_decl = some found }) (λ r. r.name) refl found
      ∙ ap (λ (r : Decl). r.name)
          (write_self ast found (record (ast found) { name = generation_name name (g + 1) }))

  pub name-redefined_ne : (k : ℕ) → k ≢ found → (after k).name ≡ (ast k).name
  name-redefined_ne k n =
      field-write renamed d (record (renamed d) { prev_decl = some found }) (λ r. r.name) refl k
      ∙ ap (λ (r : Decl). r.name) (write_ne ast found _ k n)

  pub prev-redefined_self : (after d).prev_decl ≡ some found
  prev-redefined_self =
      ap (λ (r : Decl). r.prev_decl)
        (write_self renamed d (record (renamed d) { prev_decl = some found }))

  pub prev-redefined_ne : (k : ℕ) → k ≢ d → (after k).prev_decl ≡ (ast k).prev_decl
  prev-redefined_ne k n =
      ap (λ (r : Decl). r.prev_decl) (write_ne renamed d _ k n)
      ∙ field-write ast found (record (ast found) { name = generation_name name (g + 1) })
          (λ r. r.prev_decl) refl k

generation_in-dollar :
    (name : Text) (c : ℕ) (s : Text)
    → dollar_of name ≡ some (c ∷ s)
    → atoi s ≢ 0
    → generation_in name ≡ some (atoi s)
unfolding generation_in
generation_in-dollar name c s h n =
    rw (h, generation_in, let e : (atoi s == 0) ≡ false = ground arith in e)

-- The name of a previous declaration holds the generation that it was given.
pub generation_in-name :
    (name : Text) (g : ℕ)
    → IsPlain name
    → g + 1 < 2 ^ 31
    → generation_in (generation_name name (g + 1)) ≡ some (g + 1)
generation_in-name name g plain h =
    let n : atoi (decimal (g + 1)) ≡ g + 1 = atoi_from-decimal_in 10 (g + 1) (omega arith) in
    generation_in-dollar (generation_name name (g + 1)) b'$' (decimal (g + 1))
      (dollar_of-append name (decimal (g + 1)) plain) (omega (arith, n))
    ∙ ap (λ k. some k) n

pub generation_in-plain : (name : Text) → IsPlain name → generation_in name ≡ none
unfolding generation_in
generation_in-plain name h = rw (h, generation_in)

module _ (ast : Ast) (d : ℕ) where
  pub generation_of-none : (ast d).prev_decl ≡ none → generation_of ast d ≡ some 0
  unfolding generation_of
  generation_of-none e = rw (e, generation_of)

  pub generation_of-some :
      (prev : ℕ)
      → (ast d).prev_decl ≡ some prev
      → generation_of ast d ≡ generation_in (ast prev).name
  unfolding generation_of
  generation_of-some prev e = rw (e, generation_of)
