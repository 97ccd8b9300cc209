-- ===== src/Lexical.antt =====
-- Lexical addresses: the compile-time environment (libpoke/pkl-env.c) tells where the run-time one
-- (libpoke/pvm-env.c) has the value of a declaration.
pub mod Mirror
pub mod Runs
pub mod Address
mod Tests
