-- ===== src/Cli.antt =====
-- src/cli/: the command line client's tables and global options.
pub mod Formatters
pub mod Options
