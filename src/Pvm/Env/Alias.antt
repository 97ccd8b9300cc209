-- ===== src/Pvm/Env/Alias.antt =====
-- Assignment to a variable of the run-time environment (libpoke/pvm-env.c), which is seen through every
-- environment that shares the frame.
use poke.Base.{
  ℕ, zero, suc, ◌<◌, ◌≡◌, ◌≢◌, refl, sym, ◌∙◌, ap, ◌==◌, ◌&&◌, if◌then◌else◌, List, [], ◌∷◌, none,
  some, get_elem?, length, arith, Bool-cases, Option-cases, inl, inr, ==_iff,
}
use mathlib.Core.Bool.{false≢true}
use poke.Pvm.Env.{Frame, Heap, assigned, write, pvm_env_back, pvm_env_lookup, pvm_env_set_var}
use poke.Pvm.Env.Blocks.{assigned_total}

module _ {V : Type 0} where
  get_elem?-lt :
      (vars : List V) (over : ℕ) {v : V} → get_elem? vars over ≡ some v → over < length vars
  get_elem?-lt [] over h = absurd (cc)
  get_elem?-lt (x ∷ vars) zero h = omega arith
  get_elem?-lt (x ∷ vars) (suc over) h = omega (arith, get_elem?-lt vars over h)

  pvm_env_back-none :
      (heap : Heap V) (env back : ℕ)
      → (heap.frame_at env).up ≡ none
      → pvm_env_back heap env (suc back) ≡ none
  unfolding pvm_env_back
  pvm_env_back-none heap env back e = rw (e, pvm_env_back)

  pub pvm_env_back-up :
      (heap : Heap V) (env back : ℕ) {up : ℕ}
      → (heap.frame_at env).up ≡ some up
      → pvm_env_back heap env (suc back) ≡ pvm_env_back heap up back
  unfolding pvm_env_back
  pvm_env_back-up heap env back e = rw (e, pvm_env_back)

  pub pvm_env_lookup-back :
      (heap : Heap V) (env back over : ℕ) {frame : ℕ}
      → pvm_env_back heap env back ≡ some frame
      → pvm_env_lookup heap env back over ≡ get_elem? (heap.frame_at frame).vars over
  unfolding pvm_env_lookup
  pvm_env_lookup-back heap env back over e = rw (e, pvm_env_lookup)

  pvm_env_lookup-some :
      (heap : Heap V) (env back over : ℕ) {v : V}
      → pvm_env_lookup heap env back over ≡ some v
      → (frame : ℕ) × (pvm_env_back heap env back ≡ some frame)
        × (get_elem? (heap.frame_at frame).vars over ≡ some v)
  unfolding pvm_env_lookup
  pvm_env_lookup-some heap env back over h = elim (Option-cases (pvm_env_back heap env back)) [
    | inl e ↦ cc (rw (e, pvm_env_lookup) at h)
    | inr (frame, e) ↦ (frame, e, rw (e, pvm_env_lookup) at h)
  ]

  -- Links decide how far `pvm_env_back` goes.
  pub pvm_env_back_congr :
      (heap heap' : Heap V)
      → ((k : ℕ) → (heap'.frame_at k).up ≡ (heap.frame_at k).up)
      → (env back : ℕ) → pvm_env_back heap' env back ≡ pvm_env_back heap env back
  unfolding pvm_env_back
  pvm_env_back_congr heap heap' same env zero = refl
  pvm_env_back_congr heap heap' same env (suc back) = elim (Option-cases (heap.frame_at env).up) [
    | inl e ↦
        pvm_env_back-none heap' env back (same env ∙ e) ∙ sym (pvm_env_back-none heap env back e)
    | inr (up, e) ↦
        pvm_env_back-up heap' env back (same env ∙ e)
        ∙ pvm_env_back_congr heap heap' same up back
        ∙ sym (pvm_env_back-up heap env back e)
  ]

  pub up-write :
      (heap : Heap V) (env : ℕ) (frame : Frame V)
      → frame.up ≡ (heap.frame_at env).up
      → (k : ℕ) → ((write heap env frame).frame_at k).up ≡ (heap.frame_at k).up
  up-write heap env frame h k = elim (Bool-cases (k == env)) [
    | inl e ↦ rw (e, h, (==_iff k env).0 e)
    | inr e ↦ rw e
  ]

  pvm_env_set_var-write :
      (heap : Heap V) (env back over : ℕ) (val : V) {frame : ℕ} {vars : List V}
      → pvm_env_back heap env back ≡ some frame
      → assigned (heap.frame_at frame).vars over val ≡ some vars
      → pvm_env_set_var heap env back over val
        ≡ some (write heap frame (record (heap.frame_at frame) { vars = vars }))
  unfolding pvm_env_set_var
  pvm_env_set_var-write heap env back over val e f = rw (e, pvm_env_set_var, f)

  -- What a place of the frame that is assigned to, or of another one, holds afterwards.
  get_elem?-write :
      (heap : Heap V) (frame over : ℕ) (val : V) (vars : List V)
      → get_elem? vars over ≡ some val
      → ((k : ℕ) → k ≢ over → get_elem? vars k ≡ get_elem? (heap.frame_at frame).vars k)
      → (frame' over' : ℕ)
      → get_elem?
          ((write heap frame (record (heap.frame_at frame) { vars = vars })).frame_at frame').vars
          over'
        ≡ (if (frame' == frame) && (over' == over)
            then some val
            else get_elem? (heap.frame_at frame').vars over')
  get_elem?-write heap frame over val vars here rest frame' over' =
      elim (Bool-cases (frame' == frame)) [
        | inr e ↦ rw e
        | inl e ↦ elim (Bool-cases (over' == over)) [
          | inl f ↦ rw (e, f, (==_iff over' over).0 f) here
          | inr f ↦
              rw (e, f, (==_iff frame' frame).0 e)
                (rest over' (λ q. false≢true (sym f ∙ (==_iff over' over).1 q)))
        ]
      ]

  -- A variable that has a value can be assigned to. Afterwards a lookup, from any environment, that
  -- leads to the same frame and place gives the value assigned, and any other that leads to a frame
  -- gives what it gave.
  pub pvm_env_set_var-lookup :
      (heap : Heap V) (env back over : ℕ) (val old : V)
      → pvm_env_lookup heap env back over ≡ some old
      → (env' back' over' frame' : ℕ) → pvm_env_back heap env' back' ≡ some frame'
      → (heap' : Heap V) × (frame : ℕ) × (pvm_env_set_var heap env back over val ≡ some heap')
        × (pvm_env_back heap env back ≡ some frame)
        × (pvm_env_lookup heap' env' back' over' ≡ (
            if (frame' == frame) && (over' == over)
            then some val
            else pvm_env_lookup heap env' back' over'))
  pvm_env_set_var-lookup heap env back over val old h env' back' over' frame' b' =
      let (frame, b, g) = pvm_env_lookup-some heap env back over h in
      let vars = (heap.frame_at frame).vars in
      let (vars', e, l, here, rest) = assigned_total vars over val (get_elem?-lt vars over g) in
      let new : Frame V = record (heap.frame_at frame) { vars = vars' } in
      (
        write heap frame new,
        frame,
        pvm_env_set_var-write heap env back over val b e,
        b,
        pvm_env_lookup-back (write heap frame new) env' back' over' (
              pvm_env_back_congr heap (write heap frame new) (up-write heap frame new refl) env'
                back'
              ∙ b')
            ∙ get_elem?-write heap frame over val vars' here rest frame' over'
            ∙ ap (λ o. if (frame' == frame) && (over' == over) then some val else o)
                (sym (pvm_env_lookup-back heap env' back' over' b')),
      )
