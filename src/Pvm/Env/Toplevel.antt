-- ===== src/Pvm/Env/Toplevel.antt =====
-- The invariant of the heap of frames (libpoke/pvm-env.c): the links lead to older frames, so that the
-- walk to the top level ends.
use poke.Base.{
  ℕ, zero, suc, ◌+◌, ◌<◌, ◌≡◌, ◌≢◌, refl, sym, ◌∙◌, ap, ◌==◌, true, false, Option, none, some,
  arith, Option-cases, inl, inr, ==_iff,
}
use native.Mathlib.Decide.{ℕ_discrete}
use poke.Pvm.Env.{
  Frame, Heap, pvm_env_push_frame, pvm_env_back, pvm_env_toplevel, pvm_env_toplevel_p,
}
use poke.Pvm.Env.Blocks.{IsFrame, Extends}
use poke.Pvm.Env.Alias.{pvm_env_back-up}

module _ {V : Type 0} where
  pub record IsHeap (heap : Heap V) : Type 0 where
    pub frames : (k : ℕ) → k < heap.next → IsFrame (heap.frame_at k)
    pub links : (k up : ℕ) → k < heap.next → (heap.frame_at k).up ≡ some up → up < k

  pub Extends-IsHeap :
      {heap heap' : Heap V} (env : ℕ) {val : V}
      → Extends heap env val heap'
      → IsHeap heap
      → IsHeap heap'
  Extends-IsHeap {heap} {heap'} env x ok = record {
    frames = λ k h. elim (ℕ_discrete k env) [
      | yes e ↦ rw e x.is_frame
      | no n ↦ rw (x.elsewhere k n) (ok.frames k (omega (arith, x.same_next)))
    ];
    links = λ k up h e. elim (ℕ_discrete k env) [
      | yes q ↦ ok.links k up (omega (arith, x.same_next)) (
          ap (λ j. (heap.frame_at j).up) q
          ∙ sym x.same_up
          ∙ ap (λ j. (heap'.frame_at j).up) (sym q)
          ∙ e)
      | no n ↦
          ok.links k up (omega (arith, x.same_next))
            (sym (ap (λ (f : Frame V). f.up) (x.elsewhere k n)) ∙ e)
    ];
  }

  -- A new frame has no values, room for some, and the link that is given.
  pub record Pushes (heap : Heap V) (up : Option ℕ) (env : ℕ) (heap' : Heap V) : Type 0 where
    pub at_next : env ≡ heap.next
    pub next_up : heap'.next ≡ heap.next + 1
    pub empty : (heap'.frame_at env).num_vars ≡ 0
    pub linked : (heap'.frame_at env).up ≡ up
    pub is_frame : IsFrame (heap'.frame_at env)
    pub elsewhere : (k : ℕ) → k ≢ env → heap'.frame_at k ≡ heap.frame_at k

  pub pvm_env_push_frame-Pushes :
      (heap : Heap V) (env hint : ℕ)
      → Pushes heap
          (some env)
          (pvm_env_push_frame heap env hint).0
          (pvm_env_push_frame heap env hint).1
  unfolding pvm_env_push_frame
  pvm_env_push_frame-Pushes heap env hint =
      let e : (heap.next == heap.next) ≡ true = (==_iff _ _).1 refl in
      record {
        at_next = refl;
        next_up = refl;
        empty = rw e;
        linked = rw e;
        is_frame =
            rw e (record { stepped = ground arith; fits = omega arith; whole = omega arith });
        elsewhere = λ k n. let f : (k == heap.next) ≡ false = ground arith in rw f;
      }

  pub Pushes-IsHeap :
      {heap heap' : Heap V} (up env : ℕ)
      → Pushes heap (some up) env heap'
      → up < heap.next
      → IsHeap heap
      → IsHeap heap'
  Pushes-IsHeap {heap} {heap'} up env x below ok = record {
    frames = λ k h. elim (ℕ_discrete k env) [
      | yes e ↦ rw e x.is_frame
      | no n ↦ rw (x.elsewhere k n) (ok.frames k (omega (arith, x.next_up, x.at_next)))
    ];
    links = λ k j h e. elim (ℕ_discrete k env) [
      | yes q ↦
          let f : some up ≡ some j = sym x.linked ∙ ap (λ j. (heap'.frame_at j).up) (sym q) ∙ e in
          let g : up ≡ j = cc f in omega (arith, x.at_next)
      | no n ↦
          ok.links k j (omega (arith, x.next_up, x.at_next))
            (sym (ap (λ (f : Frame V). f.up) (x.elsewhere k n)) ∙ e)
    ];
  }

  toplevel-none :
      (fuel : ℕ) (heap : Heap V) (env : ℕ)
      → (heap.frame_at env).up ≡ none
      → pvm_env_toplevel (suc fuel) heap env ≡ some env
  unfolding pvm_env_toplevel
  toplevel-none fuel heap env e = rw (e, pvm_env_toplevel)

  toplevel-some :
      (fuel : ℕ) (heap : Heap V) (env : ℕ) {up : ℕ}
      → (heap.frame_at env).up ≡ some up
      → pvm_env_toplevel (suc fuel) heap env ≡ pvm_env_toplevel fuel heap up
  unfolding pvm_env_toplevel
  toplevel-some fuel heap env e = rw (e, pvm_env_toplevel)

  -- From any frame of the heap the walk to the top level ends, within as many rounds as there are
  -- frames up to it, at a frame that has no link and that `pvm_env_back` reaches.
  pub pvm_env_toplevel_total :
      (fuel : ℕ) (heap : Heap V) (env : ℕ)
      → IsHeap heap
      → env < heap.next
      → env < fuel
      → (top : ℕ) × (back : ℕ) × (pvm_env_toplevel fuel heap env ≡ some top)
        × (pvm_env_toplevel_p heap top ≡ true)
        × (pvm_env_back heap env back ≡ some top)
  unfolding pvm_env_toplevel_p pvm_env_back
  pvm_env_toplevel_total zero heap env ok h f = absurd (omega arith)
  pvm_env_toplevel_total (suc fuel) heap env ok h f = elim (Option-cases (heap.frame_at env).up) [
    | inl e ↦ (env, 0, toplevel-none fuel heap env e, rw e, refl)
    | inr (up, e) ↦
        let older : up < env = ok.links env up h e in
        let (top, back, found, is_top, reached) =
          pvm_env_toplevel_total fuel heap up ok (omega arith) (omega arith) in
        (
          top,
          suc back,
          toplevel-some fuel heap env e ∙ found,
          is_top,
          pvm_env_back-up heap env back e ∙ reached,
        )
  ]
