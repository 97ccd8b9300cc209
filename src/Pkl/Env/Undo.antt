-- ===== src/Pkl/Env/Undo.antt =====
-- The undoing of redefinitions (libpoke/pkl-env.c), as the compiler does it when it gives up
-- (libpoke/pkl.c).
mod Rollback
mod Session
mod Kept
mod Steps
mod Result
pub use Rollback.*
pub use Session.*
pub use Result.*
