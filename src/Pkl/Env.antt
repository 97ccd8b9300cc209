-- ===== src/Pkl/Env.antt =====
-- libpoke/pkl-env.c: the compile-time environment, a stack of frames of declarations.
pub mod Rename
pub mod Cases
pub mod Valid
pub mod Lookup
pub mod Undo
pub mod Facts
pub mod Iter
pub mod Sample
mod Tests
use poke.Base.{
  ℕ, zero, suc, ◌+◌, ◌-◌, ◌*◌, ◌%◌, ◌^◌, ◌≡◌, Bool, true, false, ltb, ◌==◌, ◌&&◌, if◌then◌else◌,
  List, [], ◌∷◌, ◌++◌, Option, none, some, bit_and, length,
}
use mathlib.Core.Bool.{not}
use poke.Pkl.Decls.{
  Ast, Decl, Env, Frame, Hash, Kind, Namespace, find_in, func_kind, generation_in, generation_name,
  generation_of, get_registered, hash_loop, hash_string, hash_table_size, ns_main, ns_units,
  rename_decl, type_kind, unit_kind, unsigned_char, var_kind, write,
}
use poke.Pkl.Text.{Text, streq, dollar_of, truncated, decimal, atoi}

-- What `register_decl` and `pkl_env_register` end with: 1 with the new state, 0 with nothing changed,
-- or a failed assertion (the use of NULL included).
pub data Registered {ℓ} (A : Type ℓ) : Type ℓ where
  registered : A → Registered A
  rejected : Registered A
  aborted : Registered A

unfoldable pub get_ns_table : Frame → Namespace → Hash
get_ns_table frame ns_main = frame.hash_table
get_ns_table frame ns_units = frame.units_hash_table

unfoldable pub set_ns_table : Frame → Namespace → Hash → Frame
set_ns_table frame ns_main table = record frame { hash_table = table }
set_ns_table frame ns_units table = record frame { units_hash_table = table }

-- A bucket with one more declaration at its head.
abbrev pub chained : Hash → Text → ℕ → Hash
chained table name d h = if h == hash_string name then d ∷ table h else table h

-- PKL_AST_DECL_PREV_DECL (decl) = found_decl
abbrev pub replaced : Ast → ℕ → ℕ → Ast
replaced ast found d = write ast d (record (ast d) { prev_decl = some found })

-- A declaration that is found is renamed and becomes the previous one of the new one. `printed` tells
-- whether `asprintf` had memory.
unfoldable pub redefine : (printed : Bool) → Ast → List ℕ → Text → ℕ → ℕ → Registered (Ast × List ℕ)
redefine printed ast redecls name found d = elim (generation_of ast found) [
  | none ↦ aborted
  | some generation ↦
      if printed
      then registered (
        replaced (rename_decl ast found (generation_name name (generation + 1))) found d,
        d ∷ redecls,
      )
      else rejected
]

-- The state once a declaration of that name is out of the way.
unfoldable pub make_way :
    (printed : Bool)
    → Ast
    → Frame
    → (top_level_p : Bool) → Hash
    → Text
    → ℕ
    → Registered (Ast × List ℕ)
make_way printed ast frame top_level_p table name d = elim (get_registered ast table name) [
  | none ↦ registered (ast, frame.redecls)
  | some found ↦
      if top_level_p && not (ast found).immutable_p
      then redefine printed ast frame.redecls name found d
      else rejected
]

unfoldable pub register_decl :
    (printed : Bool)
    → Ast
    → Frame
    → (top_level_p : Bool) → Namespace
    → Text
    → ℕ
    → Registered (Ast × Frame)
register_decl printed ast frame top_level_p ns name d =
    let table = get_ns_table frame ns in
    elim (make_way printed ast frame top_level_p table name d) [
      | registered (ast', redecls) ↦
          registered
            (ast', set_ns_table (record frame { redecls = redecls }) ns (chained table name d))
      | rejected ↦ rejected
      | aborted ↦ aborted
    ]

-- The switch of `pkl_env_register`: the order of the declaration, and the frame with its count.
unfoldable pub numbered : Kind → Frame → ℕ × Frame
numbered type_kind frame = (frame.num_types, record frame { num_types = frame.num_types + 1 })
numbered var_kind frame = (frame.num_vars, record frame { num_vars = frame.num_vars + 1 })
numbered func_kind frame = (frame.num_vars, record frame { num_vars = frame.num_vars + 1 })
numbered unit_kind frame = (frame.num_units, record frame { num_units = frame.num_units + 1 })

-- PKL_AST_DECL_ORDER (decl) = ...
abbrev pub ordered : Ast → Frame → ℕ → Ast
ordered ast frame d = write ast d (record (ast d) { order = (numbered (ast d).kind frame).0 })

abbrev pub is_empty : Env → Bool
is_empty [] = true
is_empty (frame ∷ up) = false

unfoldable pub pkl_env_toplevel_p : Env → Bool
pkl_env_toplevel_p [] = false
pkl_env_toplevel_p (frame ∷ up) = is_empty up

unfoldable pub pkl_env_register :
    (printed : Bool) → Ast → Env → Namespace → Text → ℕ → Registered (Ast × Env)
pkl_env_register printed ast [] ns name d = aborted
pkl_env_register printed ast (frame ∷ up) ns name d =
    elim (register_decl printed ast frame (is_empty up) ns name d) [
      | registered (ast', frame') ↦
          registered (ordered ast' frame' d, (numbered (ast' d).kind frame').1 ∷ up)
      | rejected ↦ rejected
      | aborted ↦ aborted
    ]

-- The declaration and its lexical address, `back` and `over`.
unfoldable pub lookup_1 : Ast → Env → Namespace → Text → (num_frame : ℕ) → Option (ℕ × ℕ × ℕ)
lookup_1 ast [] ns name num_frame = none
lookup_1 ast (frame ∷ up) ns name num_frame =
    elim (get_registered ast (get_ns_table frame ns) name) [
      | some d ↦ some (d, num_frame, (ast d).order)
      | none ↦ lookup_1 ast up ns name (num_frame + 1)
    ]

unfoldable pub pkl_env_lookup : Ast → Env → Namespace → Text → Option (ℕ × ℕ × ℕ)
pkl_env_lookup ast env ns name = lookup_1 ast env ns name 0

abbrev pub when_type : Kind → ℕ → Option ℕ
when_type type_kind initial = some initial
when_type _ initial = none

unfoldable pub pkl_env_lookup_type : Ast → Env → Text → Option ℕ
pkl_env_lookup_type ast env name = elim (pkl_env_lookup ast env ns_main name) [
  | none ↦ none
  | some (d, back, over) ↦ when_type (ast d).kind (ast d).initial
]

abbrev pub when_var : Kind → ℕ → Option ℕ
when_var var_kind initial = some initial
when_var _ initial = none

unfoldable pub pkl_env_lookup_var : Ast → Env → Text → Option ℕ
pkl_env_lookup_var ast env name = elim (pkl_env_lookup ast env ns_main name) [
  | none ↦ none
  | some (d, back, over) ↦ when_var (ast d).kind (ast d).initial
]

-- `calloc`, which always has memory here.
abbrev pub new_frame : Frame
new_frame = record {
  hash_table = λ h. [];
  units_hash_table = λ h. [];
  redecls = [];
  num_types = 0;
  num_vars = 0;
  num_units = 0;
}

abbrev pub pkl_env_new : Env
pkl_env_new = new_frame ∷ []

unfoldable pub pkl_env_push_frame : Env → Env
pkl_env_push_frame env = new_frame ∷ env

-- The same chains of the same declarations, and no redefinition to undo.
unfoldable pub pkl_env_dup_toplevel : Frame → Env
pkl_env_dup_toplevel frame = record frame { redecls = [] } ∷ []
