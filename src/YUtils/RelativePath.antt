-- ===== src/YUtils/RelativePath.antt =====
-- y_utils.c: `get_relative_path`. A `lysc_node *` stands as the list of the node and its ancestors,
-- nearest first, and NULL as the empty list. What `lysc_path` writes for LYSC_PATH_DATA is the
-- parameter `lysc_path`.
pub mod Laws
use onm_cli.Base.{Bool, true, false, List, [], ◌∷◌, Str, ◌==◌, if◌then◌else◌}
use onm_cli.Schema.{NodeType, list, Info}

abbrev pub is_list : NodeType → Bool
is_list list = true
is_list _ = false

-- The loop that looks for the nearest list above a node, or else the root.
unfoldable pub root_parent : List Info → List Info
root_parent [] = []
root_parent (top ∷ []) = top ∷ []
root_parent (node ∷ up ∷ above) =
    let further = root_parent (up ∷ above) in
    if is_list node.nodetype then node ∷ up ∷ above else further

-- `xpath_child` from the first place where it differs from `xpath_parent`
unfoldable pub after_common : Str → Str → Str
after_common [] child = child
after_common (_ ∷ _) [] = []
after_common (a ∷ parent) (b ∷ child) =
    let further = after_common parent child in if a == b then further else b ∷ child

abbrev pub skip_slash : Str → Str
skip_slash [] = []
skip_slash (c ∷ s) = if c == b'/' then s else c ∷ s

abbrev pub parent_of : List Info → List Info
parent_of [] = []
parent_of (_ ∷ up) = up

module _ (lysc_path : List Info → Str) where
  unfoldable pub get_relative_path : List Info → Str
  unfolding root_parent after_common
  get_relative_path y_node =
      skip_slash (after_common (lysc_path (root_parent (parent_of y_node))) (lysc_path y_node))
