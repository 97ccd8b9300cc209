-- ===== src/Lexical/Runs/Declare.antt =====
-- A declaration and a new scope keep the mirror.
use poke.Base.{
  ℕ, ◌+◌, ◌≡◌, refl, sym, subst, ◌∙◌, ap, true, false, ◌∷◌, Option, some, arith, get_elem?, inl,
  inr,
}
use poke.Pkl.Decls.{
  Kind, var_kind, func_kind, type_kind, unit_kind, Namespace, ns_main, Ast, Frame, Env,
}
use poke.Pkl.Env.{get_ns_table, new_frame, numbered}
use poke.Pkl.Env.Valid.{InEnv}
use poke.Pkl.Env.Lookup.{next_order}
use poke.Pkl.Env.Facts.{Facts, is_variable, vars_after}
use poke.Pvm.Env
use poke.Pvm.Env.{Heap}
use poke.Pvm.Env.Blocks.{Extends}
use poke.Pvm.Env.Toplevel.{Pushes}
use poke.Lexical.Mirror.{Held, Mirrors, Mirrors-congr, Mirrors-widen}

next_order-variable :
    (kind : Kind) (frame : Frame) → is_variable kind ≡ true → next_order kind frame ≡ frame.num_vars
unfolding numbered
next_order-variable var_kind frame h = refl
next_order-variable func_kind frame h = refl
next_order-variable type_kind frame h = absurd (cc h)
next_order-variable unit_kind frame h = absurd (cc h)

vars_after-variable : (kind : Kind) (n : ℕ) → is_variable kind ≡ true → vars_after kind n ≡ n + 1
vars_after-variable var_kind n h = refl
vars_after-variable func_kind n h = refl
vars_after-variable type_kind n h = absurd (cc h)
vars_after-variable unit_kind n h = absurd (cc h)

vars_after-other : (kind : Kind) (n : ℕ) → is_variable kind ≡ false → vars_after kind n ≡ n
vars_after-other var_kind n h = absurd (cc h)
vars_after-other func_kind n h = absurd (cc h)
vars_after-other type_kind n h = refl
vars_after-other unit_kind n h = refl

module _ {V : Type 0} (value : ℕ → V) (ast ast' : Ast) (frame frame' : Frame) (up : Env)
    (ns : Namespace) (d : ℕ) (unknown : (ns' : Namespace) → ¬ (InEnv (frame ∷ up) ns' d))
    (facts : Facts ast frame ns d ast' frame') where
  old_order : (t : ℕ) → InEnv (frame ∷ up) ns_main t → (ast' t).order ≡ (ast t).order
  old_order t i =
      facts.same_order t (λ q. unknown ns_main (subst (λ k. InEnv (frame ∷ up) ns_main k) q i))

  Held-variable :
      (heap heap' : Heap V) (e : ℕ)
      → is_variable (ast d).kind ≡ true
      → Extends heap e (value d) heap'
      → Held value ast frame (heap.frame_at e)
      → Held value ast' frame' (heap'.frame_at e)
  Held-variable heap heap' e var x held =
      let more = vars_after-variable (ast d).kind frame.num_vars var in
      record {
        count = omega (arith, x.one_more, held.count, facts.count, more);
        block = x.is_frame;
        placed = λ t i v. elim (facts.members ns_main t i) [
          | inl q ↦
              let order : (ast' t).order ≡ frame.num_vars =
                ap (λ k. (ast' k).order) (sym q.0)
                ∙ facts.new_order
                ∙ next_order-variable (ast d).kind frame var in
              (
                omega (arith, order, facts.count, more),
                ap (λ k. get_elem? (heap'.frame_at e).vars k) (order ∙ sym held.count)
                    ∙ x.newest
                    ∙ ap (λ k. some (value k)) q.0,
              )
          | inr j ↦
              let (lt, got) = held.placed t j (ap is_variable (sym (facts.same_kind t)) ∙ v) in
              let order = old_order t (inl j) in
              (
                omega (arith, lt, order, facts.count, more),
                ap (λ k. get_elem? (heap'.frame_at e).vars k) order
                    ∙ x.older (ast t).order (omega (arith, lt, held.count))
                    ∙ got,
              )
        ];
      }

  Held-other :
      (run : Env.Frame V)
      → is_variable (ast d).kind ≡ false
      → Held value ast frame run
      → Held value ast' frame' run
  Held-other run var held =
      let same = vars_after-other (ast d).kind frame.num_vars var in
      record {
        count = omega (arith, held.count, facts.count, same);
        block = held.block;
        placed = λ t i v. elim (facts.members ns_main t i) [
          | inl q ↦ absurd (
              cc (
                sym var
                ∙ ap (λ k. is_variable (ast k).kind) q.0
                ∙ ap is_variable (sym (facts.same_kind t))
                ∙ v))
          | inr j ↦
              let (lt, got) = held.placed t j (ap is_variable (sym (facts.same_kind t)) ∙ v) in
              let order = old_order t (inl j) in
              (
                omega (arith, lt, order, facts.count, same),
                ap (λ k. get_elem? run.vars k) order ∙ got,
              )
        ];
      }

  pub Mirrors-variable :
      (heap heap' : Heap V) (bound e : ℕ)
      → is_variable (ast d).kind ≡ true
      → Extends heap e (value d) heap'
      → Mirrors value ast heap bound (frame ∷ up) (some e)
      → Mirrors value ast' heap' bound (frame' ∷ up) (some e)
  Mirrors-variable heap heap' bound e var x (e', q, below, held, rest) =
      let e≡ : e' ≡ e = cc q in
      let held' = subst (λ k. Held value ast frame (heap.frame_at k)) e≡ held in
      let rest' = subst (λ k. Mirrors value ast heap k up (heap.frame_at k).up) e≡ rest in
      (
        e,
        refl,
        omega (arith, below, e≡),
        Held-variable heap heap' e var x held',
        subst (λ o. Mirrors value ast' heap' e up o) (sym x.same_up)
            (Mirrors-congr value ast ast' heap heap' e up (heap.frame_at e).up facts.same_kind
              (λ t i. old_order t (inr i)) (λ k h. x.elsewhere k (omega (arith, h))) rest'),
      )

  pub Mirrors-other :
      (heap : Heap V) (bound : ℕ) (o : Option ℕ)
      → is_variable (ast d).kind ≡ false
      → Mirrors value ast heap bound (frame ∷ up) o
      → Mirrors value ast' heap bound (frame' ∷ up) o
  Mirrors-other heap bound o var (e, q, below, held, rest) = (
    e,
    q,
    below,
    Held-other (heap.frame_at e) var held,
    Mirrors-congr value ast ast' heap heap e up (heap.frame_at e).up facts.same_kind
        (λ t i. old_order t (inr i)) (λ k h. refl) rest,
  )

pub Mirrors-push :
    {V : Type 0} (value : ℕ → V) (ast : Ast) (heap heap' : Heap V) (env : Env) (e e' : ℕ)
    → Pushes heap (some e) e' heap'
    → Mirrors value ast heap heap.next env (some e)
    → Mirrors value ast heap' heap'.next (new_frame ∷ env) (some e')
unfolding get_ns_table
Mirrors-push value ast heap heap' env e e' p m = (
  e',
  refl,
  omega (arith, p.at_next, p.next_up),
  record { count = p.empty; block = p.is_frame; placed = λ d i v. absurd i.1 },
  subst (λ o. Mirrors value ast heap' e' env o) (sym p.linked)
      (Mirrors-congr value ast ast heap heap' e' env (some e) (λ k. refl) (λ t i. refl)
        (λ k h. p.elsewhere k (omega (arith, h)))
        (Mirrors-widen value ast heap heap.next e' env (some e) (omega (arith, p.at_next)) m)),
)
