-- ===== src/Pkl/Env/Valid.antt =====
-- The invariant of the compile-time environment (libpoke/pkl-env.c): each declaration is in the table of
-- its namespace, and the name of each previous declaration tells its generation.
mod Tables
mod Names
mod Preserved
pub use Tables.*
pub use Names.*
pub use Preserved.*
