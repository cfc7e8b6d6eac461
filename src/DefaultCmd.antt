-- ===== src/DefaultCmd.antt =====
-- src/commands/default_cmd.c: `commit`, `discard-changes`, `exit` and the `show` commands for the
-- whole candidate. `cli_get_optarg_value` is an argument.
pub mod Overlay
pub mod RootList
pub mod Commit
pub mod Show
pub mod Exit
pub mod ExitNode
pub mod Leave
pub mod Discard
mod Tests
use onm_cli.Base.{
  ℕ, ◌+◌, Bool, true, false, ◌||◌, Option, none, some, List, [], ◌∷◌, ◌++◌, Str, codes, str_eq,
  ◌==◌, if◌then◌else◌,
}
use onm_cli.Cli.{CliCode, cli_ok, cli_error}
use onm_cli.Env.{Env, SrErr}
use onm_cli.State.{
  DataTree, M, pure, ◌>>=◌, ◌>>◌, modify, Line, no_modification, changes_applied, commit_failed,
  no_config_changes, discard_failed, changes_discarded, uncommitted_changes, no_new_config,
  incomplete_command, not_implemented, xml_tree, json_tree,
}
use onm_cli.Utils.{to_lower}
use onm_cli.YUtils.Mode.{config_mode, is_root_node}
use onm_cli.YUtils.RelativePath.{is_list}
use onm_cli.Sysrepo.{
  call, is_ok, free_data_tree_all, sysrepo_discard_changes, sysrepo_has_uncommited_changes,
  sysrepo_commit, sysrepo_release_ctx, exit_success, check_live,
}

abbrev pub json_asked : Option Str → Bool
json_asked none = false
json_asked (some format) = str_eq (to_lower format) (codes "json")

module _ (env : Env) where
  open env use {World}

  abbrev pub print : Line → M World (Unit {0})
  print line = modify (λ s. record s { output = s.output ++ line ∷ [] })

  -- `commit`: the loop over the trees, with `change_pushed`.
  unfoldable pub commit_loop : List DataTree → Bool → M World CliCode
  commit_loop [] change_pushed = do
    print (if change_pushed then changes_applied else no_modification)
    pure cli_ok
  commit_loop (tree ∷ prev) change_pushed =
      let skip = commit_loop prev change_pushed in
      let pushed = commit_loop prev true in
      do
        changed ← sysrepo_has_uncommited_changes env tree.node
        if changed == 0 then skip else do
          ret ← sysrepo_commit env tree.node
          if ret == exit_success then pushed else do print commit_failed; pure cli_error

  abbrev pub commit_trees : List DataTree → M World CliCode
  commit_trees [] = do print no_modification; pure cli_ok
  commit_trees (tree ∷ prev) = commit_loop (tree ∷ prev) false

  unfoldable pub cmd_commit : M World CliCode
  unfolding commit_loop
  cmd_commit s = commit_trees s.config_root_tree s

  abbrev pub discarded : SrErr → M World CliCode
  discarded ret =
      if is_ok ret
      then (do
        print changes_discarded
        modify (λ s. record s { world = env.cli_set_configmode s.world config_mode })
        pure cli_ok)
      else (do print discard_failed; pure cli_error)

  abbrev pub discard_trees : List DataTree → M World CliCode
  discard_trees [] = do print no_config_changes; pure cli_ok
  discard_trees (tree ∷ prev) = do
    free_data_tree_all env
    ret ← sysrepo_discard_changes env
    discarded ret

  unfoldable pub cmd_discard_changes : M World CliCode
  unfolding free_data_tree_all sysrepo_discard_changes
  cmd_discard_changes s = discard_trees s.config_root_tree s

  -- `exit` in the mode of `configure terminal`: true if a tree has uncommitted changes.
  unfoldable pub any_uncommited : List DataTree → M World Bool
  any_uncommited [] = pure false
  any_uncommited (tree ∷ prev) =
      let rest = any_uncommited prev in
      do
        changed ← sysrepo_has_uncommited_changes env tree.node
        if changed == 1 then pure true else rest

  abbrev pub leave_config : M World CliCode
  leave_config = do sysrepo_release_ctx env; call env env.cli_exit

  abbrev pub exit_unless : Bool → M World CliCode
  exit_unless true = do print uncommitted_changes; pure cli_error
  exit_unless false = do free_data_tree_all env; leave_config

  abbrev pub exit_trees : List DataTree → M World CliCode
  exit_trees [] = leave_config
  exit_trees (tree ∷ prev) = do uncommited ← any_uncommited (tree ∷ prev); exit_unless uncommited

  -- The loop over the ancestors of `parent_data`.
  unfoldable pub prev_parent : World → List ℕ → Option ℕ
  prev_parent w [] = none
  prev_parent w (n ∷ above) =
      let further = prev_parent w above in
      if is_list (env.schema w n).nodetype || is_root_node (env.schema w n ∷ env.schema_up w n) == 1
      then some n
      else further

  abbrev pub exit_nodes : Option ℕ → M World CliCode
  exit_nodes none = call env env.cli_exit
  exit_nodes (some n) = do
    check_live env n
    modify (λ s. record s { parent_data = prev_parent s.world (env.ancestors s.world n) })
    call env env.cli_exit

  unfoldable pub cmd_exit2 : M World CliCode
  unfolding any_uncommited free_data_tree_all sysrepo_release_ctx prev_parent is_root_node
  cmd_exit2 s =
      if env.mode s.world == config_mode
      then exit_trees s.config_root_tree s
      else exit_nodes s.parent_data s

  -- `lyd_print_mem` reads the tree, if it is given one.
  abbrev pub check_tree : Option ℕ → M World (Unit {0})
  check_tree none = pure tt
  check_tree (some n) = check_live env n

  -- Each tree of the list is printed.
  unfoldable pub show_loop : Bool → List DataTree → M World CliCode
  show_loop is_json [] = pure cli_ok
  show_loop is_json (tree ∷ prev) =
      let rest = show_loop is_json prev in
      do
        check_tree tree.node
        print (if is_json then json_tree tree.node else xml_tree tree.node)
        rest

  abbrev pub show_trees : Bool → List DataTree → M World CliCode
  show_trees is_json [] = do print no_new_config; pure cli_error
  show_trees is_json (tree ∷ prev) = show_loop is_json (tree ∷ prev)

  unfoldable pub cmd_show_config_candidate : Option Str → M World CliCode
  unfolding show_loop to_lower str_eq
  cmd_show_config_candidate format s = show_trees (json_asked format) s.config_root_tree s

  unfoldable pub cmd_no : M World CliCode
  cmd_no = do print incomplete_command; pure cli_error

  unfoldable pub cmd_show_config_running : M World CliCode
  cmd_show_config_running = do print not_implemented; pure cli_ok

  unfoldable pub cmd_show_config_startup : M World CliCode
  cmd_show_config_startup = do print not_implemented; pure cli_ok
