-- ===== src/NodeCmd.antt =====
-- src/commands/yang_core/cmd_leaf.c, cmd_container.c and cmd_list.c: the handlers of the commands
-- that are made for single nodes.
pub mod Leaf
pub mod Container
pub mod List
pub mod PrintOrder
pub mod Choice
mod Tests
