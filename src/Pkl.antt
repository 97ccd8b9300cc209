-- ===== src/Pkl.antt =====
-- The compiler of libpoke: its compile-time environment.
pub mod Text
pub mod Decls
pub mod Env
