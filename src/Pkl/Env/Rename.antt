-- ===== src/Pkl/Env/Rename.antt =====
-- libpoke/pkl-env.c: the end of the redefinitions, which are kept or undone, and that of frames.
use poke.Base.{ℕ, Bool, true, false, if◌then◌else◌, List, [], ◌∷◌, Option, none, some}
use poke.Pkl.Text.{dollar_of, truncated}
use poke.Pkl.Decls.{Ast, Frame, Env, write}
use poke.Pkl.Env.{is_empty}

-- The name of the previous declaration is cut in place at its dollar, and the link to it is dropped.
abbrev pub cut : Ast → ℕ → Ast
cut ast prev = write ast prev (record (ast prev) { name = truncated (ast prev).name })

abbrev pub rolled : Ast → ℕ → ℕ → Ast
rolled ast prev d = write (cut ast prev) d (record (cut ast prev d) { prev_decl = none })

-- `none` is a failed assertion.
unfoldable pub rollback_to : Ast → ℕ → (prev : ℕ) → Option Ast
rollback_to ast d prev = elim (dollar_of (ast prev).name) [
  | none ↦ none
  | some s ↦ some (rolled ast prev d)
]

unfoldable pub decl_rollback : Ast → ℕ → Option Ast
decl_rollback ast d = elim ((ast d).prev_decl) [ none ↦ none | some prev ↦ rollback_to ast d prev ]

-- The loop of `env_redecls_free` over the redefinitions, the latest first.
unfoldable pub redecls_free : (rollback_p : Bool) → Ast → List ℕ → Option Ast
redecls_free rollback_p ast [] = some ast
redecls_free rollback_p ast (n ∷ redecls) =
    elim (if rollback_p then decl_rollback ast n else some ast) [
      | none ↦ none
      | some ast' ↦ redecls_free rollback_p ast' redecls
    ]

unfoldable pub env_redecls_free : (rollback_p : Bool) → Ast → Frame → Option (Ast × Frame)
env_redecls_free rollback_p ast frame = elim (redecls_free rollback_p ast frame.redecls) [
  | none ↦ none
  | some ast' ↦ some (ast', record frame { redecls = [] })
]

unfoldable pub pkl_env_commit_renames : Ast → Frame → Option (Ast × Frame)
pkl_env_commit_renames ast frame = env_redecls_free false ast frame

unfoldable pub pkl_env_rollback_renames : Ast → Frame → Option (Ast × Frame)
pkl_env_rollback_renames ast frame = env_redecls_free true ast frame

-- What `pkl_env_free` does to the declarations: the outer frames are freed first.
unfoldable pub pkl_env_free : Ast → Env → Option Ast
pkl_env_free ast [] = some ast
pkl_env_free ast (frame ∷ up) = elim (pkl_env_free ast up) [
  | none ↦ none
  | some ast' ↦ elim (env_redecls_free true ast' frame) [
    | none ↦ none
    | some (ast'', freed) ↦ some ast''
  ]
]

-- The frame is freed without those above it. `none` is a failed assertion, also for the top level.
unfoldable pub pkl_env_pop_frame : Ast → Env → Option (Ast × Env)
pkl_env_pop_frame ast [] = none
pkl_env_pop_frame ast (frame ∷ up) =
    if is_empty up
    then none
    else elim (pkl_env_free ast (frame ∷ [])) [ none ↦ none | some ast' ↦ some (ast', up) ]
