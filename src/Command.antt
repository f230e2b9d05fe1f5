-- ===== src/Command.antt =====
-- node/src/command.rs and node/src/cli.rs: loading a chain specification, and running a subcommand.
pub mod LoadSpec
pub mod Run
pub mod Cli
pub mod Laws
pub mod Safety
pub mod Known
pub mod Factory
