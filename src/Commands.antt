-- ===== src/Commands.antt =====
-- The commands of the tools (tools/cmd): what their `main` functions do after the flags are parsed.
-- FatalWithCause ends a command with its error; log lines are left out.
pub mod Machines
pub mod RunTest
pub mod Register
pub mod Govern
pub mod Deploy
pub mod Audit
pub mod Verify
