-- ===== src/YUtils/Search.antt =====
-- y_utils.c: the search for the command of a schema node, and for the command that a node's command
-- is registered under. A `lysc_node *` stands as the list of the node and its ancestors, nearest
-- first. `lysc_owner_module` is the parameter `owner_module`, the name of the module it returns.
pub mod Laws
pub mod Parents
use onm_cli.Base.{
  ℕ, Bool, false, ◌&&◌, Option, none, some, List, [], ◌∷◌, Str, str_eq, ◌==◌, if◌then◌else◌,
}
use onm_cli.Schema.{Info}
use onm_cli.YUtils.CmdName.{get_root_ynode_cmd_name}

-- A `struct cli_command`: its address, and the fields that are read. The model is the address of a
-- schema node.
pub record Command : Type 0 where
  pub addr : ℕ
  pub command : Str
  pub command_hash : Option Str
  pub cmd_model : Option ℕ
  pub mode : ℕ

-- A list of commands: the first with its children, and the `next` ones.
pub data Commands : Type 0 where
  nil : Commands
  cmd : (c : Command) (children next : Commands) → Commands

abbrev pub has_hash : Option Str → Str → Bool
has_hash none root_module = false
has_hash (some hash) root_module = str_eq hash root_module

abbrev pub has_model : Option ℕ → ℕ → Bool
has_model none addr = false
has_model (some model) addr = model == addr

-- The command's name for a node: the module is added for a root node only.
unfoldable pub y_node_name : Info → List Info → Str
unfolding get_root_ynode_cmd_name
y_node_name node [] = get_root_ynode_cmd_name node.name node.module_name
y_node_name node (_ ∷ _) = node.name

abbrev pub is_command_of : (addr : ℕ) (name : Str) → Command → Bool
is_command_of addr name c = has_model c.cmd_model addr && str_eq c.command name

-- The loop over `commands`, for a module, an address and a name.
unfoldable pub search : Str → ℕ → Str → Commands → Option Command
search root_module addr name nil = none
search root_module addr name (cmd c children next) =
    let rest = search root_module addr name next in
    let found = search root_module addr name children in
    if has_hash c.command_hash root_module
    then (elim found [
      | some found_c ↦ some found_c
      | none ↦ if is_command_of addr name c then some c else rest
    ])
    else rest

module _ (owner_module : List Info → Str) where
  unfoldable pub search_cmds : Commands → Info → List Info → Option Command
  unfolding search y_node_name
  search_cmds commands node up =
      search (owner_module (node ∷ up)) node.addr (y_node_name node up) commands
