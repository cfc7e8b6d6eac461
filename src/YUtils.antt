-- ===== src/YUtils.antt =====
-- src/commands/yang_core/y_utils.c, a child module for each group of its functions, and the part of
-- data_cmd_compl.c that walks identities as y_utils.c does.
pub mod Identity
pub mod Predicate
pub mod RelativePath
pub mod Mode
pub mod CmdName
pub mod Search
pub mod Oper
mod Tests
