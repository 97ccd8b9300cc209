-- ===== src/Pvm/Env/Tests.antt =====
-- Runs of the run-time environment, and the theorems at concrete inputs.
use poke.Base.{
  ℕ, ◌≡◌, refl, some, none, true, [], ◌∷◌, ◌==◌, ◌&&◌, if◌then◌else◌, Bool-cases, inl, inr, arith,
}
use poke.Pvm.Env.{
  Frame, Heap, assigned, write, pvm_env_back, pvm_env_lookup, pvm_env_set_var, pvm_env_register,
  pvm_env_toplevel, pvm_env_toplevel_p,
}
use poke.Pvm.Env.Blocks.{IsFrame}
use poke.Pvm.Env.Alias.{pvm_env_set_var-lookup}
use poke.Pvm.Env.Toplevel.{IsHeap, pvm_env_toplevel_total}

abbrev outer : Frame ℕ
outer = record { num_vars = 1; step = 2; vars = 7 ∷ 0 ∷ []; up = none }

abbrev inner : Frame ℕ
inner = record { num_vars = 2; step = 2; vars = 8 ∷ 9 ∷ []; up = some 0 }

-- A closure's frame inside the top level.
abbrev nested : Heap ℕ
nested = record { frame_at = λ k. if k == 0 then outer else inner; next = 2 }

-- The block of the inner frame is full, and grows by a step.
grows :
    pvm_env_register 0 nested 1 5
    ≡ some (write nested 1 (record inner { num_vars = 3; vars = 8 ∷ 9 ∷ 5 ∷ 0 ∷ [] }))
unfolding pvm_env_register assigned
grows = refl

outer-IsFrame : IsFrame outer
outer-IsFrame = record { stepped = omega arith; fits = omega arith; whole = refl }

inner-IsFrame : IsFrame inner
inner-IsFrame = record { stepped = omega arith; fits = omega arith; whole = refl }

nested-IsHeap : IsHeap nested
nested-IsHeap = record {
  frames =
      λ k h. elim (Bool-cases (k == 0)) [ inl e ↦ rw e outer-IsFrame | inr e ↦ rw e inner-IsFrame ];
  links = λ k up h e. elim (Bool-cases (k == 0)) [
    | inl f ↦ absurd (cc (rw f at e))
    | inr f ↦ let g : some 0 ≡ some up = rw f at e in let z : 0 ≡ up = cc g in ground arith
  ];
}

-- The closure assigns to the variable of the top level.
pvm_env_set_var-lookup_example :
    (heap' : Heap ℕ) × (frame : ℕ) × (pvm_env_set_var nested 1 1 0 5 ≡ some heap')
    × (pvm_env_back nested 1 1 ≡ some frame)
    × (pvm_env_lookup heap' 0 0 0
        ≡ (if (0 == frame) && (0 == 0) then some 5 else pvm_env_lookup nested 0 0 0))
unfolding pvm_env_lookup pvm_env_back
pvm_env_set_var-lookup_example = pvm_env_set_var-lookup nested 1 1 0 5 7 refl 0 0 0 0 refl

pvm_env_toplevel_total_example :
    (top : ℕ) × (back : ℕ) × (pvm_env_toplevel 2 nested 1 ≡ some top)
    × (pvm_env_toplevel_p nested top ≡ true)
    × (pvm_env_back nested 1 back ≡ some top)
pvm_env_toplevel_total_example =
    pvm_env_toplevel_total 2 nested 1 nested-IsHeap (omega arith) (omega arith)
