-- ===== src/Pvm/Env.antt =====
-- libpoke/pvm-env.c: the run-time environment, frames of values that are linked from the inside to the
-- outside and that closures share.
pub mod Blocks
pub mod Alias
pub mod Toplevel
mod Tests
use poke.Base.{
  ℕ, zero, suc, ◌+◌, ◌%◌, ◌<◌, ◌≡◌, ◌==◌, Bool, true, false, if◌then◌else◌, List, [], ◌∷◌, ◌++◌,
  Option, none, some, get_elem?, take, replicate,
}

-- `V` is `pvm_val`, and `null` the value whose bytes are 0.
module _ {V : Type 0} where
  -- A write past the block is a fault.
  unfoldable pub assigned : List V → ℕ → V → Option (List V)
  assigned [] over val = none
  assigned (v ∷ vars) zero val = some (val ∷ vars)
  assigned (v ∷ vars) (suc over) val = elim (assigned vars over val) [
    | none ↦ none
    | some vars' ↦ some (v ∷ vars')
  ]

-- `struct pvm_env`, with its block of values; NULL is `none`.
pub record Frame (V : Type 0) : Type 0 where
  pub num_vars : ℕ
  pub step : ℕ
  pub vars : List V
  pub up : Option ℕ

-- The collected heap: the frames at their addresses, and the address that is given out next.
pub record Heap (V : Type 0) : Type 0 where
  pub frame_at : ℕ → Frame V
  pub next : ℕ

-- `p == NULL`
abbrev pub is_null : Option ℕ → Bool
is_null none = true
is_null (some p) = false

module _ {V : Type 0} where
  abbrev pub write : Heap V → ℕ → Frame V → Heap V
  write heap env frame = record heap { frame_at = λ k. if k == env then frame else heap.frame_at k }

  -- `pvm_alloc` clears what it gives, so `up` is NULL.
  unfoldable pub pvm_env_new : Heap V → (hint : ℕ) → ℕ × Heap V
  pvm_env_new heap hint =
      let frame : Frame V = record {
        num_vars = 0;
        step = if hint == 0 then 128 else hint;
        vars = [];
        up = none;
      } in
      (heap.next, record (write heap heap.next frame) { next = heap.next + 1 })

  unfoldable pub pvm_env_push_frame : Heap V → ℕ → (hint : ℕ) → ℕ × Heap V
  unfolding pvm_env_new
  pvm_env_push_frame heap env hint =
      let (frame, heap') = pvm_env_new heap hint in
      (frame, write heap' frame (record (heap'.frame_at frame) { up = some env }))

  -- `none` is a failed assertion.
  unfoldable pub pvm_env_pop_frame : Heap V → ℕ → Option ℕ
  pvm_env_pop_frame heap env = (heap.frame_at env).up

  -- `pvm_realloc` keeps the values, and `memset` clears the new ones.
  abbrev pub grown : V → Frame V → Frame V
  grown null frame = record frame {
    vars = take frame.num_vars frame.vars ++ replicate frame.step null;
  }

  abbrev pub roomy : V → Frame V → Frame V
  roomy null frame = if frame.num_vars % frame.step == 0 then grown null frame else frame

  -- `none` is a failed assertion, or a write past the block.
  unfoldable pub pvm_env_register : (null : V) → Heap V → ℕ → V → Option (Heap V)
  unfolding assigned
  pvm_env_register null heap env val =
      let frame = roomy null (heap.frame_at env) in
      if (heap.frame_at env).step == 0
      then none
      else elim (assigned frame.vars frame.num_vars val) [
        | none ↦ none
        | some vars ↦
            some (write heap env (record frame { num_vars = frame.num_vars + 1; vars = vars }))
      ]

  -- The loop of `pvm_env_back`; `none` is the use of NULL.
  unfoldable pub pvm_env_back : Heap V → ℕ → (back : ℕ) → Option ℕ
  pvm_env_back heap env zero = some env
  pvm_env_back heap env (suc back) = elim ((heap.frame_at env).up) [
    | none ↦ none
    | some up ↦ pvm_env_back heap up back
  ]

  unfoldable pub pvm_env_lookup : Heap V → ℕ → (back over : ℕ) → Option V
  pvm_env_lookup heap env back over = elim (pvm_env_back heap env back) [
    | none ↦ none
    | some frame ↦ get_elem? (heap.frame_at frame).vars over
  ]

  unfoldable pub pvm_env_set_var : Heap V → ℕ → (back over : ℕ) → V → Option (Heap V)
  pvm_env_set_var heap env back over val = elim (pvm_env_back heap env back) [
    | none ↦ none
    | some frame ↦ elim (assigned (heap.frame_at frame).vars over val) [
      | none ↦ none
      | some vars ↦ some (write heap frame (record (heap.frame_at frame) { vars = vars }))
    ]
  ]

  unfoldable pub pvm_env_toplevel_p : Heap V → ℕ → Bool
  pvm_env_toplevel_p heap env = is_null (heap.frame_at env).up

  -- The loop of `pvm_env_toplevel`, `fuel` rounds of it at most.
  unfoldable pub pvm_env_toplevel : (fuel : ℕ) → Heap V → ℕ → Option ℕ
  pvm_env_toplevel zero heap env = none
  pvm_env_toplevel (suc fuel) heap env = elim ((heap.frame_at env).up) [
    | none ↦ some env
    | some up ↦ pvm_env_toplevel fuel heap up
  ]
