-- ===== src/DataFactory/Tests.antt =====
-- The theorems on data_factory.c over the small model of the libraries.
use onm_cli.Base.{Str, true, ℕ, ◌≡◌, refl, inl, Option, none, some, [], ◌∷◌, ◌++◌, codes, str_eq}
use onm_cli.Env.{LyErr, success}
use onm_cli.State.{State}
use onm_cli.Sysrepo.{sysrepo_get_ctx, sysrepo_release_ctx}
use onm_cli.Sample.{World, stored, top}
use onm_cli.Sample.Laws.{value}
use onm_cli.Sample.Start.{fresh, started}
use onm_cli.Sample.Rooted.{rooted, rooted-making, lysc_path}
use onm_cli.DataFactory.{
  edit_data_add, edit_node_data_tree, edit_by_type, edit_container, new_root,
  get_sysrepo_running_node, make_container, fill_root, fill_cell, add_data_node, delete_data_node,
  get_local_node_data,
}
use onm_cli.YUtils.Predicate.{create_list_predicate_from_optargs, append_keys}
use onm_cli.YUtils.RelativePath.{get_relative_path, after_common, root_parent}
use onm_cli.DataFactory.ListEdit.{insert_point, list_path, edit_node_data_tree_list}
use onm_cli.DataFactory.ListEdit.Order.{insert_point-get_elem?}
use onm_cli.DataFactory.ListEdit.Balance.{edit_node_data_tree_list_balanced}
use onm_cli.DataFactory.Balance.{edit_node_data_tree_balanced}
use onm_cli.DataFactory.AddRoot.{Added}
use onm_cli.DataFactory.AddContainer.{add_data_node-Added}
use onm_cli.DefaultCmd.{cmd_commit}
use onm_cli.Sample.RootedEdits.{rooted-documented, rooted-readable}
use onm_cli.DataFactory.AddCommit.{Committed, add_data_node-cmd_commit}
use onm_cli.DataFactory.Session.{Steps, enter, show, stop, next, Steps-cmd_commit}
use onm_cli.DefaultCmd.Overlay.{overlay, view}
use onm_cli.DefaultCmd.RootList.{IsRootList}
use onm_cli.DefaultCmd.Show.{shown, show_code, cmd_show_config_candidate-shown}
use onm_cli.Cli.{CliCode, cli_ok}
use onm_cli.Utils.{to_lower}
use onm_cli.DataFactory.DeleteRoot.{delete_data_node-add_data_node}
use onm_cli.DataFactory.Lookup.{IsFirst, get_local_node_data-IsFirst}

add_data_node-Added_example :
    (ret : LyErr) × (s' : State World) × (add_data_node rooted lysc_path top [] none started
      ≡ some (ret, s'))
    × Added rooted lysc_path rooted-making top value stored 1 [] ret s'
add_data_node-Added_example =
    add_data_node-Added rooted lysc_path rooted-making top value stored started refl refl tt
      (λ e. refl)

-- The state behind an edit that does not fault.
abbrev behind_of : State World → Option (LyErr × State World) → State World
behind_of s none = s
behind_of s (some (ret, s')) = s'

abbrev with_top : State World
with_top =
    behind_of started (edit_node_data_tree rooted lysc_path edit_data_add top [] none started)

add_run :
    edit_node_data_tree rooted lysc_path edit_data_add top [] none started
    ≡ some (success, with_top)
unfolding edit_node_data_tree edit_by_type edit_container new_root get_sysrepo_running_node
    make_container fill_root fill_cell sysrepo_get_ctx sysrepo_release_ctx
add_run = refl

add_data_node_run : add_data_node rooted lysc_path top [] none started ≡ some (success, with_top)
add_data_node_run = add_run

add_data_node-cmd_commit_example :
    Committed rooted lysc_path value stored rooted-making top rooted-documented rooted-readable
      with_top
      (cmd_commit rooted with_top)
add_data_node-cmd_commit_example =
    add_data_node-cmd_commit rooted lysc_path value stored rooted-making top rooted-documented
      rooted-readable started with_top refl refl tt (λ e. refl) add_data_node_run

-- The user enters a container and has the candidate shown.
abbrev shown_top : State World
shown_top = record with_top { output = with_top.output ++ shown true with_top.config_root_tree }

session-Steps : Steps rooted lysc_path started shown_top
unfolding str_eq to_lower edit_node_data_tree sysrepo_release_ctx
session-Steps = next (enter top refl refl add_data_node_run) (
    next
      (show (some (codes "json")) (show_code with_top.config_root_tree)
        (cmd_show_config_candidate-shown rooted (some (codes "json")) with_top))
      stop)

Steps-cmd_commit_example :
    IsRootList rooted value stored shown_top.world shown_top.config_root_tree
    × (code : CliCode) × (s'' : State World) × (cmd_commit rooted shown_top ≡ some (code, s''))
    × (code ≡ cli_ok
        → (q : ℕ) → rooted.live shown_top.world q ≡ true
        → rooted.ancestors shown_top.world q ≡ []
        → stored s''.world (rooted.lyd_path shown_top.world q)
          ≡ overlay
              (view rooted value stored shown_top.world shown_top.config_root_tree)
              (stored shown_top.world)
              (rooted.lyd_path shown_top.world q))
Steps-cmd_commit_example =
    Steps-cmd_commit rooted lysc_path value stored rooted-making rooted-documented rooted-readable
      started shown_top refl refl session-Steps

edit_node_data_tree_balanced_example : (with_top.acquired ≡ 1) × (with_top.released ≡ 1)
edit_node_data_tree_balanced_example =
    edit_node_data_tree_balanced rooted lysc_path edit_data_add top [] none started with_top success
      add_run

-- A candidate with the tree of `top`.
abbrev holding : State World
holding = record started {
  world = record fresh { next = 1; path = λ n. lysc_path (top ∷ []) };
  config_root_tree = record { cell = 8; node = some 0 } ∷ [];
  parent_data = some 0;
  curr_root = some 8;
}

delete_data_node-add_data_node_example :
    delete_data_node rooted lysc_path top [] none holding
    ≡ add_data_node rooted lysc_path top [] none holding
unfolding str_eq
delete_data_node-add_data_node_example =
    delete_data_node-add_data_node rooted lysc_path value stored top holding 8 0 refl refl
      (λ m l. (l, refl, refl, refl)) ((0, refl, refl, refl, tt), tt) (inl (refl, refl)) refl

get_local_node_data-IsFirst_example :
    (o : Option ℕ) × (get_local_node_data rooted lysc_path (codes "/x") holding ≡ some (o, holding))
    × IsFirst rooted lysc_path holding.world (codes "/x") holding.config_root_tree o
get_local_node_data-IsFirst_example =
    get_local_node_data-IsFirst rooted lysc_path (codes "/x") holding ((0, refl, refl), tt)

abbrev no_arguments : Str → Option Str
no_arguments name = none

abbrev with_entry : State World
with_entry = behind_of holding (
    edit_node_data_tree_list rooted lysc_path no_arguments (top ∷ []) [] edit_data_add 0 true
      holding)

entry_run :
    edit_node_data_tree_list rooted lysc_path no_arguments
      (top ∷ [])
      []
      edit_data_add
      0
      true
      holding
    ≡ some (success, with_entry)
unfolding edit_node_data_tree_list list_path create_list_predicate_from_optargs append_keys
    get_relative_path after_common root_parent str_eq sysrepo_get_ctx sysrepo_release_ctx
entry_run = refl

edit_node_data_tree_list_balanced_example : (with_entry.acquired ≡ 1) × (with_entry.released ≡ 1)
edit_node_data_tree_list_balanced_example =
    edit_node_data_tree_list_balanced rooted lysc_path no_arguments (top ∷ []) [] edit_data_add 0
      true holding with_entry success entry_run

insert_point-get_elem?_example : insert_point 25 10 (4 ∷ 5 ∷ 6 ∷ []) ≡ some 6
insert_point-get_elem?_example = insert_point-get_elem? 25 (4 ∷ 5 ∷ 6 ∷ [])
