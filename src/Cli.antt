-- ===== src/Cli.antt =====
-- app/cli.py: the command line.
pub mod Quote
pub mod Unquoted
pub mod Paths
pub mod Run
pub mod Reports
mod Tests
