-- ===== src/Cmd.antt =====
-- cmd: the command line tools.
pub mod Versioncheck
