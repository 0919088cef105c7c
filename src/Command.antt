-- ===== src/Command.antt =====
-- cmd/debeasy: the program's subcommands.
pub mod Checksum
pub mod Update
pub mod Admin
mod Tests
