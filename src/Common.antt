-- ===== src/Common.antt =====
-- src/common/: helpers that every program of the system uses.
pub mod StringUtils
pub mod Numbers
pub mod Env
pub mod Paths
pub mod EnvFile
