-- ===== src/YUtils/Mode.antt =====
-- y_utils.c: the configuration mode that a node's children are registered in, and the mode that a
-- command enters. What `lysc_path` writes for LYSC_PATH_LOG is the parameter `log_path`.
use onm_cli.Base.{ℕ, List, [], ◌∷◌, Str}
use onm_cli.Utils.{str2int_hash}
use onm_cli.Schema.{Info}

-- MODE_CONFIG of libcli and CONFIG_MODE of y_utils.c
abbrev pub config_mode : ℕ
config_mode = 1

-- Whether the node is a root node, 1 or 0.
unfoldable pub is_root_node : List Info → ℕ
is_root_node [] = 0
is_root_node (_ ∷ []) = 1
is_root_node (_ ∷ _ ∷ _) = 0

module _ (log_path : List Info → Str) where
  unfoldable pub y_get_next_mode : List Info → ℕ
  y_get_next_mode y_node = str2int_hash (log_path y_node) []

  unfoldable pub y_get_curr_mode : Info → List Info → ℕ
  y_get_curr_mode y_node [] = config_mode
  y_get_curr_mode y_node (parent ∷ up) = str2int_hash (log_path (parent ∷ up)) []
