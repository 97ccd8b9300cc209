-- ===== src/Pvm.antt =====
-- The virtual machine of libpoke: its run-time environment.
pub mod Env
