-- ===== src/Cmd.antt =====
-- The command line in cmd: what the commands do to policies and key rings.
pub mod Policies
pub mod Keys
