-- ===== src/Argv.antt =====
-- The package argv: command lines described by commands, options and parameters.
pub mod Tokenize
pub mod Model
pub mod Strings
pub mod Verify
pub mod Invocation
pub mod Options
pub mod Params
pub mod Parse
pub mod Candidates
pub mod Completion
pub mod Run
