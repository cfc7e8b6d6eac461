-- ===== src/DataFactory.antt =====
-- src/commands/yang_core/data_factory.c: the edits of the candidate. A `lysc_node *` stands as the
-- node and the list of its ancestors, nearest first. `lysc_path` is what that function writes for
-- LYSC_PATH_DATA.
pub mod Context
pub mod Balance
pub mod Roots
pub mod FindRoot
pub mod AddRoot
pub mod AddContainer
pub mod AddCommit
pub mod Session
pub mod DeleteRoot
pub mod Lookup
pub mod ListEdit
mod Tests
use onm_cli.Base.{
  ℕ, ◌+◌, Bool, true, false, ◌&&◌, Option, none, some, List, [], ◌∷◌, ◌++◌, Str, codes, str_eq,
  take, ◌==◌, if◌then◌else◌,
}
use onm_cli.Env.{Env, LyErr, success, incomplete, failed, SrErr, sr_ok}
use onm_cli.Schema.{NodeType, container, choice, leaf, leaf_list, Info}
use onm_cli.State.{DataTree, M, pure, fault, ◌>>=◌, ◌>>◌, gets, modify, ly_error}
use onm_cli.Sysrepo.{call, check_live, sysrepo_get_session, sysrepo_get_ctx, sysrepo_release_ctx}
use onm_cli.YUtils.RelativePath.{get_relative_path}

pub data EditType : Type 0 where
  edit_data_add edit_data_del : EditType

-- `snprintf(xpath, 256, ...)`
abbrev pub snprintf_256 : Str → Str
snprintf_256 = take 255

abbrev pub is_same_schema : Info → Info → Bool
is_same_schema a b = str_eq a.name b.name && str_eq a.module_name b.module_name

-- `new_parent == NULL || ret == LY_EINCOMPLETE`
abbrev pub is_missing : LyErr × Option ℕ → Bool
is_missing (incomplete, _) = true
is_missing (_, none) = true
is_missing (_, some n) = false

abbrev pub tree_of : SrErr × Option ℕ → Option ℕ
tree_of (sr_ok, tree) = tree
tree_of (_, tree) = none

abbrev pub or_else : Option ℕ → Option ℕ → Option ℕ
or_else none other = other
or_else (some n) other = some n

-- `curr_root->node = curr_root->node ? curr_root->node : parent_data`, for the cell at an address;
-- `none` if there is no such cell any more.
unfoldable pub fill_cell : ℕ → Option ℕ → List DataTree → Option (List DataTree)
fill_cell cell parent [] = none
fill_cell cell parent (tree ∷ prev) =
    let rest = fill_cell cell parent prev in
    if tree.cell == cell
    then some (record tree { node = or_else tree.node parent } ∷ prev)
    else (elim rest [ none ↦ none | some trees ↦ some (tree ∷ trees) ])

module _ (env : Env) (lysc_path : List Info → Str) where
  open env use {World}

  abbrev pub check_parent : Option ℕ → M World (Unit {0})
  check_parent none = pure tt
  check_parent (some n) = check_live env n

  -- `lyd_find_path` with a `match` that is NULL before the call: for NULL it returns LY_EINVAL.
  abbrev pub find_path : Option ℕ → Str → M World (LyErr × Option ℕ)
  find_path none xpath = pure (failed 3, none)
  find_path (some n) xpath = do check_live env n; gets (λ s. env.lyd_find_path s.world n xpath)

  -- The same with a `match` that is not initialised, and stays so for NULL.
  abbrev pub find_path_unset : Option ℕ → Str → M World (LyErr × Option ℕ)
  find_path_unset none xpath = fault
  find_path_unset (some n) xpath = find_path (some n) xpath

  abbrev pub new_path : Option ℕ → Str → Option Str → M World (LyErr × Option ℕ)
  new_path parent xpath value = do
    check_parent parent
    call env (λ w. env.lyd_new_path w parent xpath value)

  -- `lyd_free_tree` and `lyd_change_term`, which do nothing for NULL.
  abbrev pub free_tree : Option ℕ → M World (Unit {0})
  free_tree none = pure tt
  free_tree (some n) = do
    check_live env n
    modify (λ s. record s { world = env.lyd_free_tree s.world (some n) })

  abbrev pub change_term : Option ℕ → Option Str → M World (Unit {0})
  change_term none value = pure tt
  change_term (some n) value = do
    check_live env n
    modify (λ s. record s { world = env.lyd_change_term s.world n value })

  unfoldable pub get_sysrepo_running_node : Str → M World (Option ℕ)
  get_sysrepo_running_node xpath = do
    session ← sysrepo_get_session env
    answer ← call env (λ w. env.sr_get_subtree w session xpath)
    pure (tree_of answer)

  abbrev pub set_parent : Option ℕ → M World (Unit {0})
  set_parent node = modify (λ s. record s { parent_data = node })

  -- The comparison of a root of the candidate with a schema node.
  abbrev pub same_root : Info → Option ℕ → M World Bool
  same_root y_node none = fault
  same_root y_node (some n) = do
    check_live env n
    gets (λ s. is_same_schema (env.schema s.world n) y_node)

  -- The loop that looks for the tree of a schema node.
  unfoldable pub find_root : Info → List DataTree → M World (Option DataTree)
  find_root y_node [] = pure none
  find_root y_node (tree ∷ prev) =
      let rest = find_root y_node prev in
      do same ← same_root y_node tree.node; if same then pure (some tree) else rest

  -- A new cell in front of the list, with what the running datastore holds.
  unfoldable pub new_root : Str → M World (Option ℕ)
  unfolding get_sysrepo_running_node
  new_root xpath = do
    node ← get_sysrepo_running_node xpath
    modify (λ s. record s {
      config_root_tree = record { cell = s.next_cell; node = node } ∷ s.config_root_tree;
      curr_root = some s.next_cell;
      next_cell = s.next_cell + 1;
    })
    pure node

  abbrev pub filled_trees : Option (List DataTree) → M World (Unit {0})
  filled_trees none = fault
  filled_trees (some trees) = modify (λ s. record s { config_root_tree = trees })

  abbrev pub fill_at : Option ℕ → M World (Unit {0})
  fill_at none s = none
  fill_at (some cell) s = filled_trees (fill_cell cell s.parent_data s.config_root_tree) s

  unfoldable pub fill_root : M World (Unit {0})
  unfolding fill_cell
  fill_root s = fill_at s.curr_root s

  -- What stands behind the creation of a container.
  abbrev pub container_made : EditType → LyErr × Option ℕ → M World LyErr
  container_made edit_data_add (success, new_parent) = do
    set_parent new_parent
    fill_root
    pure success
  container_made edit_data_del (success, new_parent) = do free_tree new_parent; pure success
  container_made edit_type (ret, new_parent) = pure ret

  unfoldable pub make_container : EditType → Str → Option ℕ → M World LyErr
  unfolding fill_root
  make_container edit_type xpath parent = do
    found ← find_path parent xpath
    answer ← if is_missing found then new_path parent xpath none else pure found
    container_made edit_type answer

  -- `if (ret != LY_SUCCESS) print_ly_err(...)`, and the rest
  abbrev pub finish : LyErr → M World LyErr
  finish success = do sysrepo_release_ctx env; pure success
  finish ret = do
    modify (λ s. record s { output = s.output ++ ly_error ∷ [] })
    sysrepo_release_ctx env
    pure ret

  abbrev pub container_at : EditType → Str → M World LyErr
  container_at edit_type xpath = do
    parent ← gets (λ s. s.parent_data)
    ret ← make_container edit_type xpath parent
    finish ret

  -- The first edit of a root container: the candidate is empty.
  abbrev pub first_root : EditType → Str → Option ℕ → M World LyErr
  first_root edit_type xpath (some n) = do
    set_parent (some n)
    sysrepo_release_ctx env
    pure success
  first_root edit_type xpath none = container_at edit_type xpath

  -- The tree of a root container is found, or made.
  abbrev pub root_found : EditType → Str → Option DataTree → M World LyErr
  root_found edit_type xpath (some tree) = do
    modify (λ s. record s { curr_root = some tree.cell; parent_data = tree.node })
    sysrepo_release_ctx env
    pure success
  root_found edit_type xpath none = do
    node ← new_root xpath
    set_parent node
    container_at edit_type xpath

  abbrev pub root_among : EditType → Info → Str → List DataTree → M World LyErr
  root_among edit_type y_node xpath [] = do node ← new_root xpath; first_root edit_type xpath node
  root_among edit_type y_node xpath (tree ∷ prev) = do
    found ← find_root y_node (tree ∷ prev)
    root_found edit_type xpath found

  -- LYS_CONTAINER
  unfoldable pub edit_container : EditType → Info → List Info → M World LyErr
  unfolding find_root new_root make_container get_relative_path
  edit_container edit_type y_node [] s =
      root_among edit_type y_node (lysc_path (y_node ∷ [])) s.config_root_tree s
  edit_container edit_type y_node (parent ∷ up) s =
      container_at edit_type (snprintf_256 (get_relative_path lysc_path (y_node ∷ parent ∷ up))) s

  abbrev pub leaf_made : EditType → Option Str → LyErr × Option ℕ → M World LyErr
  leaf_made edit_data_add value (ret, new_leaf) = do change_term new_leaf value; finish ret
  leaf_made edit_data_del value (ret, new_leaf) = do free_tree new_leaf; finish ret

  -- LYS_LEAF and LYS_LEAFLIST
  unfoldable pub edit_leaf : EditType → Str → Option Str → M World LyErr
  edit_leaf edit_type xpath value = do
    parent ← gets (λ s. s.parent_data)
    found ← find_path_unset parent xpath
    answer ← if is_missing found then new_path parent xpath value else pure found
    leaf_made edit_type value answer

  -- `%s[.='%s']`
  abbrev pub leaf_list_path : Str → Str → Str
  leaf_list_path path value = snprintf_256 (((path ++ codes "[.='") ++ value) ++ codes "']")

  abbrev pub edit_leaf_list : EditType → Str → Option Str → M World LyErr
  edit_leaf_list edit_type path none = fault
  edit_leaf_list edit_type path (some value) =
      edit_leaf edit_type (leaf_list_path path value) (some value)

  -- The switch. The other kinds of node leave `ret` uninitialised.
  unfoldable pub edit_by_type : EditType → NodeType → Info → List Info → Option Str → M World LyErr
  unfolding edit_container edit_leaf
  edit_by_type edit_type choice y_node up value = do sysrepo_release_ctx env; pure success
  edit_by_type edit_type container y_node up value = edit_container edit_type y_node up
  edit_by_type edit_type leaf y_node up value =
      edit_leaf edit_type (snprintf_256 (get_relative_path lysc_path (y_node ∷ up))) value
  edit_by_type edit_type leaf_list y_node up value =
      edit_leaf_list edit_type (get_relative_path lysc_path (y_node ∷ up)) value
  edit_by_type edit_type _ y_node up value = fault

  -- EXIT_FAILURE is 1.
  abbrev pub no_context : M World LyErr
  no_context = do sysrepo_release_ctx env; pure (failed 1)

  unfoldable pub edit_node_data_tree : EditType → Info → List Info → Option Str → M World LyErr
  unfolding edit_by_type sysrepo_get_ctx
  edit_node_data_tree edit_type y_node up value = do
    ctx ← sysrepo_get_ctx env
    if ctx then edit_by_type edit_type y_node.nodetype y_node up value else no_context

  abbrev pub add_data_node : Info → List Info → Option Str → M World LyErr
  add_data_node = edit_node_data_tree edit_data_add

  abbrev pub delete_data_node : Info → List Info → Option Str → M World LyErr
  delete_data_node = edit_node_data_tree edit_data_del

  -- The loop of `get_local_node_data`, which ends at a tree that is NULL.
  unfoldable pub local_node : Str → List DataTree → M World (Option ℕ)
  local_node xpath [] = pure none
  local_node xpath (tree ∷ prev) =
      let rest = local_node xpath prev in
      elim tree.node [
        | none ↦ pure none
        | some n ↦ do
          found ← find_path (some n) xpath
          elim found.1 [ some match ↦ pure (some match) | none ↦ rest ]
      ]

  unfoldable pub get_local_node_data : Str → M World (Option ℕ)
  unfolding local_node
  get_local_node_data xpath s = local_node xpath s.config_root_tree s
