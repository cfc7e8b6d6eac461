-- ===== src/DataFactory/ListEdit.antt =====
-- src/commands/yang_core/data_factory.c: the edits of list entries, and the lookups of them. The
-- children of the list and the arguments of the command are parameters, as in YUtils.Predicate. An
-- `int` stands as its 32-bit pattern.
pub mod Order
pub mod Balance
use onm_cli.Base.{
  ℕ, ◌+◌, ◌^◌, Bool, true, false, ◌&&◌, ◌||◌, Option, none, some, List, [], ◌∷◌, ◌++◌, Str, str_eq,
  length, ltb, leb, ◌==◌, if◌then◌else◌,
}
use onm_cli.Env.{Env, LyErr, success}
use onm_cli.Schema.{Info}
use onm_cli.State.{DataTree, M, pure, fault, ◌>>=◌, ◌>>◌, gets}
use onm_cli.Sysrepo.{
  call, check_live, sysrepo_release_ctx, sysrepo_get_session, sysrepo_get_session_startup,
  sysrepo_get_session_operational, sysrepo_get_ctx,
}
use onm_cli.YUtils.RelativePath.{is_list, get_relative_path}
use onm_cli.YUtils.Predicate.{Buffer, create_list_predicate_from_optargs}
use onm_cli.DataFactory.{
  EditType, edit_data_add, edit_data_del, is_missing, tree_of, find_path, find_path_unset,
  check_parent, free_tree, set_parent, finish, no_context, local_node,
}

-- `index < curr_indx` on signed integers
abbrev pub is_before : ℕ → ℕ → Bool
is_before index curr_indx = leb (2 ^ 31) index || ltb index curr_indx

-- The loop over the siblings: the one that the new node is put in front of.
unfoldable pub insert_point : ℕ → ℕ → List ℕ → Option ℕ
insert_point index curr_indx [] = none
insert_point index curr_indx (next ∷ after) =
    let further = insert_point index (curr_indx + 10) after in
    if is_before index curr_indx then some next else further

-- `strcat(xpath, predicate_str)` into 265 bytes; `none` if they do not hold it.
unfoldable pub list_path : Str → Option Buffer → Option Str
list_path xpath none = none
list_path xpath (some predicate) =
    if ltb (length xpath + length predicate.text) 265 then some (xpath ++ predicate.text) else none

-- `curr_root->node`; `none` if there is no such cell any more.
unfoldable pub node_at : ℕ → List DataTree → Option (Option ℕ)
node_at cell [] = none
node_at cell (tree ∷ prev) =
    let further = node_at cell prev in if tree.cell == cell then some tree.node else further

module _ (env : Env) (lysc_path : List Info → Str) where
  open env use {World}

  abbrev pub given : {A : Type 0} → Option A → M World A
  given none = fault
  given (some a) = pure a

  abbrev pub root_node : Option ℕ → List DataTree → M World (Option ℕ)
  root_node none trees = fault
  root_node (some cell) trees = given (node_at cell trees)

  -- `curr_parent` and `xpath`: the entry is named from the root if there is no `parent_data`.
  abbrev pub list_parent : Option ℕ → List Info → M World (Option ℕ × Str)
  list_parent (some n) y_node = pure (some n, get_relative_path lysc_path y_node)
  list_parent none y_node = do
    curr_root ← gets (λ s. s.curr_root)
    trees ← gets (λ s. s.config_root_tree)
    node ← root_node curr_root trees
    pure (node, lysc_path y_node)

  abbrev pub siblings_of : Option ℕ → M World (List ℕ)
  siblings_of none = pure []
  siblings_of (some n) = do check_live env n; gets (λ s. env.siblings s.world n)

  -- What stands behind the loop for an entry that could not be inserted.
  abbrev pub after_insert : Option ℕ → LyErr → M World LyErr → M World LyErr
  after_insert new_parent success rest = rest
  after_insert new_parent ret rest = do free_tree env lysc_path new_parent; pure ret

  abbrev pub insert_at : Option ℕ → Option ℕ → M World LyErr → M World LyErr
  insert_at (some n) (some next) rest = do
    ret ← call env (λ w. env.lyd_insert_before w next n)
    after_insert (some n) ret rest
  insert_at new_parent point rest = rest

  -- `if (index)`, in front of `rest`
  abbrev pub insert_by : ℕ → Option ℕ → M World LyErr → M World LyErr
  insert_by index new_parent rest = if index == 0 then rest else (do
    siblings ← siblings_of new_parent
    insert_at new_parent (insert_point index 10 siblings) rest)

  abbrev pub entry_made : EditType → Bool → Option ℕ → M World LyErr
  entry_made edit_data_add true new_parent = do set_parent env lysc_path new_parent; pure success
  entry_made edit_data_add false new_parent = pure success
  entry_made edit_data_del is_update_parent new_parent = do
    free_tree env lysc_path new_parent
    pure success

  abbrev pub leave : LyErr → M World LyErr
  leave ret = do sysrepo_release_ctx env; pure ret

  -- `print_ly_err` is called only for an entry that could not be found or made.
  abbrev pub entry_found : EditType → ℕ → Bool → LyErr × Option ℕ → M World LyErr
  entry_found edit_type index is_update_parent (success, new_parent) = do
    ret ← insert_by index new_parent (entry_made edit_type is_update_parent new_parent)
    leave ret
  entry_found edit_type index is_update_parent (ret, new_parent) = finish env lysc_path ret

  abbrev pub new_path2 : Option ℕ → Str → M World (LyErr × Option ℕ)
  new_path2 parent xpath = do
    check_parent env lysc_path parent
    call env (λ w. env.lyd_new_path2 w parent xpath)

  abbrev pub edit_entry : EditType → ℕ → Bool → Option ℕ → Str → M World LyErr
  edit_entry edit_type index is_update_parent parent xpath = do
    found ← find_path_unset env lysc_path parent xpath
    answer ← if is_missing found then new_path2 parent xpath else pure found
    entry_found edit_type index is_update_parent answer

  module _ (optarg : Str → Option Str) where
    abbrev pub edit_list : EditType → List Info → List Info → ℕ → Bool → M World LyErr
    edit_list edit_type y_node children index is_update_parent = do
      parent_data ← gets (λ s. s.parent_data)
      at ← list_parent parent_data y_node
      xpath ← given (list_path at.1 (create_list_predicate_from_optargs optarg children))
      edit_entry edit_type index is_update_parent at.0 xpath

    -- The node is given with its ancestors, and with its children.
    unfoldable pub edit_node_data_tree_list :
        List Info → List Info → EditType → ℕ → Bool → M World LyErr
    unfolding sysrepo_get_ctx
    edit_node_data_tree_list y_node children edit_type index is_update_parent = do
      ctx ← sysrepo_get_ctx env
      if ctx
          then edit_list edit_type y_node children index is_update_parent
          else no_context env lysc_path

    abbrev pub add_data_node_list : List Info → List Info → ℕ → Bool → M World LyErr
    add_data_node_list y_node children index has_none_key_nodes =
        edit_node_data_tree_list y_node children edit_data_add index has_none_key_nodes

    abbrev pub delete_data_node_list : List Info → List Info → M World LyErr
    delete_data_node_list y_node children =
        edit_node_data_tree_list y_node children edit_data_del 0 false

  unfoldable pub get_sysrepo_operational_node : Str → M World (Option ℕ)
  unfolding sysrepo_get_session_operational
  get_sysrepo_operational_node xpath = do
    session ← sysrepo_get_session_operational env
    answer ← call env (λ w. env.sr_get_subtree w session xpath)
    pure (tree_of answer)

  unfoldable pub get_sysrepo_startup_node : Str → M World (Option ℕ)
  unfolding sysrepo_get_session_startup
  get_sysrepo_startup_node xpath = do
    session ← sysrepo_get_session_startup env
    answer ← call env (λ w. env.sr_get_subtree w session xpath)
    pure (tree_of answer)

  -- The first of some siblings that is an entry of the list.
  unfoldable pub first_entry : World → Str → List ℕ → Option ℕ
  first_entry w name [] = none
  first_entry w name (n ∷ next) =
      let further = first_entry w name next in
      if is_list (env.schema w n).nodetype && str_eq name (env.schema w n).name
      then some n
      else further

  -- Where the parent of the list is, seen from `parent_data`.
  abbrev pub match_parent : List Info → Option ℕ → M World (Option ℕ)
  match_parent up none = pure none
  match_parent [] (some n) = fault
  match_parent (parent ∷ up) (some n) = do
    check_live env n
    info ← gets (λ s. env.schema s.world n)
    found ← find_path env lysc_path (some n) (get_relative_path lysc_path (parent ∷ up))
    pure (if info.addr == parent.addr then some n else found.1)

  abbrev pub match_root : List Info → Option ℕ → M World (Option ℕ)
  match_root up (some n) = pure (some n)
  match_root up none = do
    trees ← gets (λ s. s.config_root_tree)
    local_node env lysc_path (lysc_path up) trees

  abbrev pub entry_below : Str → Option ℕ → M World (Option ℕ)
  entry_below name none = pure none
  entry_below name (some n) = do
    check_live env n
    gets (λ s. first_entry s.world name (env.children s.world n))

  unfoldable pub get_local_list_nodes : Info → List Info → M World (Option ℕ)
  unfolding local_node first_entry get_relative_path
  get_local_list_nodes y_node up = do
    parent_data ← gets (λ s. s.parent_data)
    near ← match_parent up parent_data
    match ← match_root up near
    entry_below y_node.name match

  unfoldable pub sysrepo_get_data_subtree : List Info → M World (Option ℕ)
  sysrepo_get_data_subtree y_node = do
    session ← sysrepo_get_session env
    answer ← call env (λ w. env.sr_get_subtree w session (lysc_path y_node))
    pure (tree_of answer)

  -- A subtree without an entry of the list is returned itself.
  abbrev pub entry_or_subtree : Option ℕ → Option ℕ → Option ℕ
  entry_or_subtree subtree none = subtree
  entry_or_subtree subtree (some n) = some n

  abbrev pub or_from_sysrepo : Info → List Info → Option ℕ → M World (Option ℕ)
  or_from_sysrepo y_node up (some n) = pure (some n)
  or_from_sysrepo y_node up none = do
    subtree ← sysrepo_get_data_subtree up
    entry ← entry_below y_node.name subtree
    pure (entry_or_subtree subtree entry)

  unfoldable pub get_local_or_sr_list_nodes : Info → List Info → M World (Option ℕ)
  unfolding get_local_list_nodes sysrepo_get_data_subtree
  get_local_or_sr_list_nodes y_node up = do
    entries ← get_local_list_nodes y_node up
    or_from_sysrepo y_node up entries
