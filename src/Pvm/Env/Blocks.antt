-- ===== src/Pvm/Env/Blocks.antt =====
-- The block of values of a frame (libpoke/pvm-env.c), and what a registration does to it.
use poke.Base.{
  ℕ, zero, suc, ◌+◌, ◌%◌, ◌<◌, ◌≤◌, ◌≡◌, ◌≢◌, refl, ◌∙◌, ap, ◌==◌, false, List, [], ◌∷◌, ◌++◌, some,
  get_elem?, take, replicate, length, arith, length-append, length-take, length-replicate,
  Bool-cases, inl, inr,
}
use mathlib.Core.Bool.{false≢true}
use native.Mathlib.Nat.{add-mod_right}
use poke.Base.{sym, ==_iff}
use poke.Pvm.Env.{Frame, Heap, assigned, grown, roomy, write, pvm_env_register}

module _ {V : Type 0} where
  -- The block has whole steps, and room for the values.
  pub record IsFrame (frame : Frame V) : Type 0 where
    pub stepped : 0 < frame.step
    pub fits : frame.num_vars ≤ length frame.vars
    pub whole : length frame.vars % frame.step ≡ 0

  pub assigned_total :
      (vars : List V) (over : ℕ) (val : V)
      → over < length vars
      → (vars' : List V) × (assigned vars over val ≡ some vars')
        × (length vars' ≡ length vars)
        × (get_elem? vars' over ≡ some val)
        × ((k : ℕ) → k ≢ over → get_elem? vars' k ≡ get_elem? vars k)
  unfolding assigned
  assigned_total [] over val h = absurd (omega arith)
  assigned_total (v ∷ vars) zero val h = (val ∷ vars, refl, refl, refl, others)
    where
      others : (k : ℕ) → k ≢ 0 → get_elem? (val ∷ vars) k ≡ get_elem? (v ∷ vars) k
      others zero n = absurd (n refl)
      others (suc k) n = refl
  assigned_total (v ∷ vars) (suc over) val h =
      let (vars', e, l, here, rest) = assigned_total vars over val (omega arith) in
      (v ∷ vars', rw e, ap suc l, here, others vars' rest)
    where
      others :
          (vars' : List V)
          → ((k : ℕ) → k ≢ over → get_elem? vars' k ≡ get_elem? vars k)
          → (k : ℕ) → k ≢ suc over
          → get_elem? (v ∷ vars') k ≡ get_elem? (v ∷ vars) k
      others vars' rest zero n = refl
      others vars' rest (suc k) n = rest k (λ e. n (ap suc e))

  get_elem?-take_append :
      (n : ℕ) (xs ys : List V) (k : ℕ)
      → k < n
      → n ≤ length xs
      → get_elem? (take n xs ++ ys) k ≡ get_elem? xs k
  get_elem?-take_append zero xs ys k h l = absurd (omega arith)
  get_elem?-take_append (suc n) [] ys k h l = absurd (omega arith)
  get_elem?-take_append (suc n) (x ∷ xs) ys zero h l = refl
  get_elem?-take_append (suc n) (x ∷ xs) ys (suc k) h l =
      get_elem?-take_append n xs ys k (omega arith) (omega arith)

  module _ (null : V) (frame : Frame V) (ok : IsFrame frame) where
    length-grown : length (grown null frame).vars ≡ frame.num_vars + frame.step
    length-grown = omega (
      arith,
      length-append {0} (take frame.num_vars frame.vars) (replicate frame.step null),
      length-take {0} frame.num_vars frame.vars,
      length-replicate {0} frame.step null,
      ok.fits,
    )

    roomy_bounds :
        (frame.num_vars < length (roomy null frame).vars)
        × (length (roomy null frame).vars % frame.step ≡ 0)
    roomy_bounds = elim (Bool-cases (frame.num_vars % frame.step == 0)) [
      | inl e ↦
          rw (e, length-grown)
            (omega (arith, ok.stepped), add-mod_right frame.num_vars frame.step ∙ (==_iff _ _).0 e)
      | inr e ↦ rw e (
        let n : frame.num_vars ≢ length frame.vars =
              λ q. false≢true (sym e ∙ (==_iff _ _).1 (ap (λ k. k % frame.step) q ∙ ok.whole)) in
            omega (arith, ok.fits),
        ok.whole,
      )
    ]

    get_elem?-roomy :
        (k : ℕ) → k < frame.num_vars → get_elem? (roomy null frame).vars k ≡ get_elem? frame.vars k
    get_elem?-roomy k h = elim (Bool-cases (frame.num_vars % frame.step == 0)) [
      | inl e ↦ rw e (get_elem?-take_append frame.num_vars frame.vars _ k h ok.fits)
      | inr e ↦ rw e
    ]

    roomy_kept :
        ((roomy null frame).num_vars ≡ frame.num_vars)
        × ((roomy null frame).step ≡ frame.step)
        × ((roomy null frame).up ≡ frame.up)
    roomy_kept = ground arith

  -- What a registration of `val` in the frame at `env` makes of the heap.
  pub record Extends (heap : Heap V) (env : ℕ) (val : V) (heap' : Heap V) : Type 0 where
    pub one_more : (heap'.frame_at env).num_vars ≡ (heap.frame_at env).num_vars + 1
    pub same_up : (heap'.frame_at env).up ≡ (heap.frame_at env).up
    pub is_frame : IsFrame (heap'.frame_at env)
    pub newest : get_elem? (heap'.frame_at env).vars (heap.frame_at env).num_vars ≡ some val
    pub older :
        (k : ℕ)
        → k < (heap.frame_at env).num_vars
        → get_elem? (heap'.frame_at env).vars k ≡ get_elem? (heap.frame_at env).vars k
    pub elsewhere : (k : ℕ) → k ≢ env → heap'.frame_at k ≡ heap.frame_at k
    pub same_next : heap'.next ≡ heap.next

  pub frame_at-write :
      (heap : Heap V) (env : ℕ) (frame : Frame V) → (write heap env frame).frame_at env ≡ frame
  frame_at-write heap env frame = rw ((==_iff env env).1 refl)

  pub frame_at-write_ne :
      (heap : Heap V) (env : ℕ) (frame : Frame V) (k : ℕ)
      → k ≢ env
      → (write heap env frame).frame_at k ≡ heap.frame_at k
  frame_at-write_ne heap env frame k h = rw (let e : (k == env) ≡ false = ground arith in e)

  write-Extends :
      (heap : Heap V) (env : ℕ) (val : V) (frame : Frame V)
      → frame.num_vars ≡ (heap.frame_at env).num_vars + 1
      → frame.up ≡ (heap.frame_at env).up
      → IsFrame frame
      → get_elem? frame.vars (heap.frame_at env).num_vars ≡ some val
      → ((k : ℕ)
          → k < (heap.frame_at env).num_vars
          → get_elem? frame.vars k ≡ get_elem? (heap.frame_at env).vars k)
      → Extends heap env val (write heap env frame)
  write-Extends heap env val frame n u ok new old =
      let here = frame_at-write heap env frame in
      record {
        one_more = rw here n;
        same_up = rw here u;
        is_frame = rw here ok;
        newest = rw here new;
        older = rw here old;
        elsewhere = λ k h. frame_at-write_ne heap env frame k h;
        same_next = refl;
      }

  pvm_env_register-write :
      (null : V) (heap : Heap V) (env : ℕ) (val : V) (vars : List V)
      → ((heap.frame_at env).step == 0) ≡ false
      → (let frame = roomy null (heap.frame_at env) in
          assigned frame.vars frame.num_vars val ≡ some vars)
      → (let frame = roomy null (heap.frame_at env) in
          pvm_env_register null heap env val
          ≡ some (write heap env (record frame { num_vars = frame.num_vars + 1; vars = vars })))
  unfolding pvm_env_register
  pvm_env_register-write null heap env val vars stepped e = rw (stepped, e)

  pub pvm_env_register-Extends :
      (null : V) (heap : Heap V) (env : ℕ) (val : V)
      → IsFrame (heap.frame_at env)
      → (heap' : Heap V) × (pvm_env_register null heap env val ≡ some heap')
        × Extends heap env val heap'
  pvm_env_register-Extends null heap env val ok =
      let frame = heap.frame_at env in
      let (room, whole) = roomy_bounds null frame ok in
      let (n, s, u) = roomy_kept null frame ok in
      let (vars', e, l, here, rest) =
        assigned_total (roomy null frame).vars frame.num_vars val room in
      let stepped : (frame.step == 0) ≡ false = let h = ok.stepped in ground arith in
      let frame' : Frame V = record (roomy null frame) {
        num_vars = (roomy null frame).num_vars + 1;
        vars = vars';
      } in
      let frame'-IsFrame : IsFrame frame' = record {
        stepped = rw s ok.stepped;
        fits = rw (n, l) (omega (arith, room));
        whole = rw (l, s) whole;
      } in
      (
        write heap env frame',
        pvm_env_register-write null heap env val vars' stepped (rw n e),
        write-Extends heap env val frame' (rw n) u frame'-IsFrame here
            (λ k h. rest k (omega arith) ∙ get_elem?-roomy null frame ok k h),
      )
