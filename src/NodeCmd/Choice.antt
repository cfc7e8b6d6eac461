-- ===== src/NodeCmd/Choice.antt =====
-- src/commands/yang_core/cmd_choice.c: the handlers of choices and cases. A case stands as its node, the
-- ancestors and the children of the node, and `optargs`, the arguments that were found with their
-- names.
use onm_cli.Base.{
  Bool, true, false, Option, none, some, List, [], ◌∷◌, Str, codes, str_eq, if◌then◌else◌,
}
use onm_cli.Cli.{CliCode, cli_ok, cli_error, cli_error_arg, cli_missing_argument}
use onm_cli.Env.{Env}
use onm_cli.Schema.{NodeType, leaf, leaf_list, Info}
use onm_cli.State.{
  M, pure, ◌>>=◌, ◌>>◌, carriage_return, invalid_command, missing_value, incomplete_command,
}
use onm_cli.DefaultCmd.{print}
use onm_cli.DataFactory.{add_data_node, delete_data_node}
use onm_cli.NodeCmd.Leaf.{unless_created, unless_deleted}

abbrev pub is_leaf : NodeType → Bool
is_leaf leaf = true
is_leaf leaf_list = true
is_leaf _ = false

-- The value of the first argument with a name.
unfoldable pub optarg_of : Str → List (Str × Str) → Option Str
optarg_of name [] = none
optarg_of name ((key, value) ∷ next) =
    let further = optarg_of name next in if str_eq key name then some value else further

module _ (env : Env) (lysc_path : List Info → Str) where
  open env use {World}

  unfoldable pub cmd_yang_choice : List Str → M World CliCode
  cmd_yang_choice [] = do print env missing_value; pure cli_missing_argument
  cmd_yang_choice (arg ∷ []) = do print env invalid_command; pure cli_error_arg
  cmd_yang_choice (arg ∷ next ∷ argv) = do print env missing_value; pure cli_missing_argument

  unfoldable pub cmd_yang_no_choice : List Str → M World CliCode
  unfolding cmd_yang_choice
  cmd_yang_no_choice argv = cmd_yang_choice argv

  -- The child of a case, or the case itself: the node, its next siblings, and its ancestors.
  abbrev pub case_nodes : Info → List Info → List Info → List Info
  case_nodes y_node nexts [] = y_node ∷ nexts
  case_nodes y_node nexts (child ∷ children) = child ∷ children

  abbrev pub case_up : Info → List Info → List Info → List Info
  case_up y_node up [] = up
  case_up y_node up (child ∷ children) = y_node ∷ up

  -- `ret` for a leaf whose name is among the arguments; `rest` for another.
  abbrev pub add_leaf : Info → List Info → Option Str → M World CliCode → M World CliCode
  add_leaf node up none rest = rest
  add_leaf node up (some value) rest = do
    ret ← add_data_node env lysc_path node up (some value)
    unless_created env lysc_path ret rest

  -- The loop over the leaves of the case.
  unfoldable pub add_leaves : List (Str × Str) → List Info → List Info → M World CliCode
  unfolding optarg_of
  add_leaves optargs up [] = pure cli_ok
  add_leaves optargs up (node ∷ next) =
      let rest = add_leaves optargs up next in add_leaf node up (optarg_of node.name optargs) rest

  abbrev pub case_add : List (Str × Str) → List Info → List Info → M World CliCode
  case_add optargs up [] = do print env incomplete_command; pure cli_error
  case_add optargs up (node ∷ next) =
      if is_leaf node.nodetype
      then add_leaves optargs up (node ∷ next)
      else (do print env incomplete_command; pure cli_error)

  abbrev pub case_delete : List Info → List Info → Option Str → M World CliCode
  case_delete up [] value = pure cli_ok
  case_delete up (node ∷ next) value = do
    ret ← delete_data_node env lysc_path node up value
    unless_deleted env lysc_path ret (pure cli_ok)

  abbrev pub case_args : List (Str × Str) → List Info → List Info → List Str → M World CliCode
  case_args optargs up nodes [] = case_add optargs up nodes
  case_args optargs up nodes (arg ∷ argv) =
      if str_eq arg (codes "?")
      then (do print env carriage_return; pure cli_ok)
      else (if str_eq arg (codes "delete")
          then case_delete up nodes (some arg)
          else case_add optargs up nodes)

  unfoldable pub cmd_yang_case :
      Info → List Info → List Info → List Info → List (Str × Str) → List Str → M World CliCode
  unfolding add_leaves str_eq
  cmd_yang_case y_node up nexts children optargs argv =
      case_args optargs (case_up y_node up children) (case_nodes y_node nexts children) argv

  -- The loop that removes the leaves of a case. Its message for a failure is the one for creating.
  unfoldable pub delete_leaves : List Info → List Info → M World CliCode
  delete_leaves up [] = pure cli_ok
  delete_leaves up (node ∷ next) =
      let rest = delete_leaves up next in
      do ret ← delete_data_node env lysc_path node up none; unless_created env lysc_path ret rest

  abbrev pub case_remove : List Info → List Info → M World CliCode
  case_remove up [] = pure cli_ok
  case_remove up (node ∷ next) =
      if is_leaf node.nodetype
      then delete_leaves up (node ∷ next)
      else case_delete up (node ∷ next) none

  unfoldable pub cmd_yang_no_case : Info → List Info → List Info → List Info → M World CliCode
  unfolding delete_leaves
  cmd_yang_no_case y_node up nexts children =
      case_remove (case_up y_node up children) (case_nodes y_node nexts children)
