-- ===== src/DataFactory/Balance.antt =====
-- data_factory.c: every edit of the candidate releases the context that it acquired.
use onm_cli.Base.{ℕ, ◌+◌, ◌≡◌, subst, Option, none, some, List, [], ◌∷◌, arith, Str, if◌then◌else◌}
use onm_cli.Env.{Env, LyErr, success, incomplete, failed}
use onm_cli.Schema.{NodeType, container, choice, leaf, leaf_list, Info}
use onm_cli.State.{DataTree, State, pure}
use onm_cli.Sysrepo.{call, check_live, sysrepo_get_ctx, sysrepo_release_ctx}
use onm_cli.DataFactory.Context.{Gives, Adds, Adds-if, Adds-pure, Adds-bind}
use onm_cli.DataFactory.{
  EditType, edit_data_add, edit_data_del, is_missing, fill_cell, find_path, find_path_unset,
  new_path, free_tree, change_term, set_parent, same_root, find_root, new_root, fill_root, fill_at,
  filled_trees, container_made, make_container, finish, container_at, first_root, root_found,
  root_among, edit_container, leaf_made, edit_leaf, edit_leaf_list, edit_by_type, no_context,
  edit_node_data_tree,
}

module _ (env : Env) (lysc_path : List Info → Str) where
  open env use {World}

  -- The actions that leave the context alone.
  pub Adds-call : {A : Type 0} (f : World → A × World) → Adds 0 0 (call env f)
  Adds-call f s = (omega arith, omega arith)

  pub check_live-Adds : (n : ℕ) → Adds 0 0 (check_live env n)
  check_live-Adds n s = ground arith

  find_path-Adds :
      (parent : Option ℕ) (xpath : Str) → Adds 0 0 (find_path env lysc_path parent xpath)
  find_path-Adds none xpath s = (omega arith, omega arith)
  find_path-Adds (some n) xpath s =
      Adds-bind 0 0 0 0 (check_live env n) _ (check_live-Adds n) (λ x s. (omega arith, omega arith))
        s

  pub find_path_unset-Adds :
      (parent : Option ℕ) (xpath : Str) → Adds 0 0 (find_path_unset env lysc_path parent xpath)
  find_path_unset-Adds none xpath s = tt
  find_path_unset-Adds (some n) xpath s = find_path-Adds (some n) xpath s

  new_path-Adds :
      (parent : Option ℕ) (xpath : Str) (value : Option Str)
      → Adds 0 0 (new_path env lysc_path parent xpath value)
  new_path-Adds none xpath value s = (omega arith, omega arith)
  new_path-Adds (some n) xpath value s =
      Adds-bind 0 0 0 0 (check_live env n) _ (check_live-Adds n)
        (λ x. Adds-call (λ w. env.lyd_new_path w (some n) xpath value)) s

  pub free_tree-Adds : (node : Option ℕ) → Adds 0 0 (free_tree env lysc_path node)
  free_tree-Adds none s = (omega arith, omega arith)
  free_tree-Adds (some n) s =
      Adds-bind 0 0 0 0 (check_live env n) _ (check_live-Adds n) (λ x s. (omega arith, omega arith))
        s

  change_term-Adds :
      (node : Option ℕ) (value : Option Str) → Adds 0 0 (change_term env lysc_path node value)
  change_term-Adds none value s = (omega arith, omega arith)
  change_term-Adds (some n) value s =
      Adds-bind 0 0 0 0 (check_live env n) _ (check_live-Adds n) (λ x s. (omega arith, omega arith))
        s

  same_root-Adds :
      (y_node : Info) (node : Option ℕ) → Adds 0 0 (same_root env lysc_path y_node node)
  same_root-Adds y_node none s = tt
  same_root-Adds y_node (some n) s =
      Adds-bind 0 0 0 0 (check_live env n) _ (check_live-Adds n) (λ x s. (omega arith, omega arith))
        s

  find_root-Adds :
      (y_node : Info) (trees : List DataTree) → Adds 0 0 (find_root env lysc_path y_node trees)
  unfolding find_root
  find_root-Adds y_node [] s = (omega arith, omega arith)
  find_root-Adds y_node (tree ∷ prev) s =
      Adds-bind 0 0 0 0 (same_root env lysc_path y_node tree.node) _
        (same_root-Adds y_node tree.node)
        (λ same. Adds-if 0 0 same _ _ (Adds-pure (some tree)) (find_root-Adds y_node prev)) s

  new_root-Adds : (xpath : Str) → Adds 0 0 (new_root env lysc_path xpath)
  unfolding new_root
  new_root-Adds xpath s = (omega arith, omega arith)

  filled-Adds : (trees : Option (List DataTree)) → Adds 0 0 (filled_trees env lysc_path trees)
  filled-Adds none s = tt
  filled-Adds (some trees) s = (omega arith, omega arith)

  fill_root-Adds : Adds 0 0 (fill_root env lysc_path)
  unfolding fill_root
  fill_root-Adds s = filled s.curr_root
    where
      filled : (o : Option ℕ) → Gives 0 0 s (fill_at env lysc_path o s)
      filled none = tt
      filled (some cell) = filled-Adds (fill_cell cell s.parent_data s.config_root_tree) s

  container_made-Adds :
      (edit_type : EditType) (answer : LyErr × Option ℕ)
      → Adds 0 0 (container_made env lysc_path edit_type answer)
  container_made-Adds edit_data_add (success, new_parent) =
      Adds-bind 0 0 0 0 (set_parent env lysc_path new_parent) _ (λ s. (omega arith, omega arith))
        (λ x.
          Adds-bind 0 0 0 0 (fill_root env lysc_path) (λ y. pure success) fill_root-Adds
            (λ y. Adds-pure success))
  container_made-Adds edit_data_del (success, new_parent) =
      Adds-bind 0 0 0 0 (free_tree env lysc_path new_parent) _ (free_tree-Adds new_parent)
        (λ x. Adds-pure success)
  container_made-Adds edit_data_add (incomplete, new_parent) = Adds-pure incomplete
  container_made-Adds edit_data_add (failed n, new_parent) = Adds-pure (failed n)
  container_made-Adds edit_data_del (incomplete, new_parent) = Adds-pure incomplete
  container_made-Adds edit_data_del (failed n, new_parent) = Adds-pure (failed n)

  make_container-Adds :
      (edit_type : EditType) (xpath : Str) (parent : Option ℕ)
      → Adds 0 0 (make_container env lysc_path edit_type xpath parent)
  unfolding make_container
  make_container-Adds edit_type xpath parent =
      Adds-bind 0 0 0 0 (find_path env lysc_path parent xpath) _ (find_path-Adds parent xpath)
        (λ found.
          Adds-bind 0 0 0 0
            (if is_missing found then new_path env lysc_path parent xpath none else pure found) _
            (Adds-if 0 0 (is_missing found) _ _ (new_path-Adds parent xpath none) (Adds-pure found))
            (λ answer. container_made-Adds edit_type answer))

  -- Every way out releases the context once.
  pub finish-Adds : (ret : LyErr) → Adds 0 1 (finish env lysc_path ret)
  unfolding sysrepo_release_ctx
  finish-Adds success s = (omega arith, omega arith)
  finish-Adds incomplete s = (omega arith, omega arith)
  finish-Adds (failed n) s = (omega arith, omega arith)

  container_at-Adds :
      (edit_type : EditType) (xpath : Str) → Adds 0 1 (container_at env lysc_path edit_type xpath)
  container_at-Adds edit_type xpath s =
      Adds-bind 0 0 0 1 (make_container env lysc_path edit_type xpath s.parent_data) _
        (make_container-Adds edit_type xpath s.parent_data) finish-Adds s

  first_root-Adds :
      (edit_type : EditType) (xpath : Str) (node : Option ℕ)
      → Adds 0 1 (first_root env lysc_path edit_type xpath node)
  unfolding sysrepo_release_ctx
  first_root-Adds edit_type xpath (some n) s = (omega arith, omega arith)
  first_root-Adds edit_type xpath none s = container_at-Adds edit_type xpath s

  root_found-Adds :
      (edit_type : EditType) (xpath : Str) (found : Option DataTree)
      → Adds 0 1 (root_found env lysc_path edit_type xpath found)
  unfolding sysrepo_release_ctx
  root_found-Adds edit_type xpath (some tree) s = (omega arith, omega arith)
  root_found-Adds edit_type xpath none s =
      Adds-bind 0 0 0 1 (new_root env lysc_path xpath) _ (new_root-Adds xpath)
        (λ node.
          Adds-bind 0 0 0 1 (set_parent env lysc_path node) _ (λ s. (omega arith, omega arith))
            (λ x. container_at-Adds edit_type xpath))
        s

  root_among-Adds :
      (edit_type : EditType) (y_node : Info) (xpath : Str) (trees : List DataTree)
      → Adds 0 1 (root_among env lysc_path edit_type y_node xpath trees)
  root_among-Adds edit_type y_node xpath [] =
      Adds-bind 0 0 0 1 (new_root env lysc_path xpath) _ (new_root-Adds xpath)
        (first_root-Adds edit_type xpath)
  root_among-Adds edit_type y_node xpath (tree ∷ prev) =
      Adds-bind 0 0 0 1 (find_root env lysc_path y_node (tree ∷ prev)) _
        (find_root-Adds y_node (tree ∷ prev)) (root_found-Adds edit_type xpath)

  edit_container-Adds :
      (edit_type : EditType) (y_node : Info) (up : List Info)
      → Adds 0 1 (edit_container env lysc_path edit_type y_node up)
  unfolding edit_container
  edit_container-Adds edit_type y_node [] s =
      root_among-Adds edit_type y_node _ s.config_root_tree s
  edit_container-Adds edit_type y_node (parent ∷ up) s = container_at-Adds edit_type _ s

  leaf_made-Adds :
      (edit_type : EditType) (value : Option Str) (answer : LyErr × Option ℕ)
      → Adds 0 1 (leaf_made env lysc_path edit_type value answer)
  leaf_made-Adds edit_data_add value (ret, new_leaf) =
      Adds-bind 0 0 0 1 (change_term env lysc_path new_leaf value) _
        (change_term-Adds new_leaf value) (λ x. finish-Adds ret)
  leaf_made-Adds edit_data_del value (ret, new_leaf) =
      Adds-bind 0 0 0 1 (free_tree env lysc_path new_leaf) _ (free_tree-Adds new_leaf)
        (λ x. finish-Adds ret)

  edit_leaf-Adds :
      (edit_type : EditType) (xpath : Str) (value : Option Str)
      → Adds 0 1 (edit_leaf env lysc_path edit_type xpath value)
  unfolding edit_leaf
  edit_leaf-Adds edit_type xpath value s =
      Adds-bind 0 0 0 1 (find_path_unset env lysc_path s.parent_data xpath) _
        (find_path_unset-Adds s.parent_data xpath)
        (λ found.
          Adds-bind 0 0 0 1
            (if is_missing found
              then new_path env lysc_path s.parent_data xpath value
              else pure found)
            _
            (Adds-if 0 0 (is_missing found) _ _ (new_path-Adds s.parent_data xpath value)
              (Adds-pure found))
            (leaf_made-Adds edit_type value))
        s

  edit_leaf_list-Adds :
      (edit_type : EditType) (path : Str) (value : Option Str)
      → Adds 0 1 (edit_leaf_list env lysc_path edit_type path value)
  edit_leaf_list-Adds edit_type path none s = tt
  edit_leaf_list-Adds edit_type path (some value) s = edit_leaf-Adds edit_type _ (some value) s

  edit_by_type-Adds :
      (edit_type : EditType) (kind : NodeType) (y_node : Info) (up : List Info) (value : Option Str)
      → Adds 0 1 (edit_by_type env lysc_path edit_type kind y_node up value)
  unfolding edit_by_type sysrepo_release_ctx
  edit_by_type-Adds edit_type choice y_node up value s = (omega arith, omega arith)
  edit_by_type-Adds edit_type container y_node up value s =
      edit_container-Adds edit_type y_node up s
  edit_by_type-Adds edit_type leaf y_node up value s = edit_leaf-Adds edit_type _ value s
  edit_by_type-Adds edit_type leaf_list y_node up value s = edit_leaf_list-Adds edit_type _ value s
  edit_by_type-Adds edit_type _ y_node up value s = tt

  pub no_context-Adds : Adds 0 1 (no_context env lysc_path)
  unfolding sysrepo_release_ctx
  no_context-Adds s = (omega arith, omega arith)

  pub get_ctx-Adds : Adds 1 0 (sysrepo_get_ctx env)
  unfolding sysrepo_get_ctx
  get_ctx-Adds s = (omega arith, omega arith)

  edit-Adds :
      (edit_type : EditType) (y_node : Info) (up : List Info) (value : Option Str)
      → Adds 1 1 (edit_node_data_tree env lysc_path edit_type y_node up value)
  unfolding edit_node_data_tree
  edit-Adds edit_type y_node up value =
      Adds-bind 1 0 0 1 (sysrepo_get_ctx env) _ get_ctx-Adds (λ ctx.
        Adds-if 0 1 ctx _ _ (edit_by_type-Adds edit_type y_node.nodetype y_node up value)
          no_context-Adds)

  -- Every edit of a node that returns, whatever it edits and whether it succeeds, has acquired the
  -- context of sysrepo once and released it once.
  pub edit_node_data_tree_balanced :
      (edit_type : EditType) (y_node : Info) (up : List Info) (value : Option Str)
      (s s' : State World) (ret : LyErr)
      → edit_node_data_tree env lysc_path edit_type y_node up value s ≡ some (ret, s')
      → (s'.acquired ≡ s.acquired + 1) × (s'.released ≡ s.released + 1)
  edit_node_data_tree_balanced edit_type y_node up value s s' ret e =
      subst (Gives 1 1 s) e (edit-Adds edit_type y_node up value s)
