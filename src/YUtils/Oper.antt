-- ===== src/YUtils/Oper.antt =====
-- y_utils.c: `has_oper_children`, a walk over the subtree of a node in the order of
-- LYSC_TREE_DFS_BEGIN: a node, what is below it, what is behind it.
use onm_cli.Base.{Bool, false, ◌||◌}
use onm_cli.Schema.{Info, Nodes, end, node}

unfoldable pub any_oper : Nodes → Bool
any_oper end = false
any_oper (node child children next) = child.config_r || any_oper children || any_oper next

unfoldable pub has_oper_children : Info → Nodes → Bool
unfolding any_oper
has_oper_children y_node children = y_node.config_r || any_oper children
