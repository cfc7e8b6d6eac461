-- ===== src/NodeCmd/Container.antt =====
-- src/commands/yang_core/cmd_container.c: the handlers of containers. A command stands as its node and
-- the ancestors of the node; `optargs` are the names of the optional arguments that were given.
use onm_cli.Base.{
  ℕ, ◌≡◌, refl, Bool, true, false, ◌||◌, Option, none, some, List, [], ◌∷◌, ◌++◌, Str, All, codes,
  str_eq, ◌==◌, if◌then◌else◌,
}
use onm_cli.Cli.{CliCode, cli_ok, cli_error, cli_error_arg}
use onm_cli.Env.{Env, LyErr, success}
use onm_cli.Schema.{Info}
use onm_cli.State.{
  State, Line, M, pure, ◌>>=◌, ◌>>◌, modify, carriage_return, unknown_arguments, invalid_command,
  incomplete_command, creation_failed, deletion_failed, no_data, no_diff, xml_tree,
}
use onm_cli.Sysrepo.{call}
use onm_cli.YUtils.Mode.{is_root_node, y_get_next_mode}
use onm_cli.DefaultCmd.{print}
use onm_cli.DataFactory.{
  add_data_node, delete_data_node, get_local_node_data, get_sysrepo_running_node,
}
use onm_cli.DataFactory.ListEdit.{get_sysrepo_startup_node, get_sysrepo_operational_node}
use onm_cli.DataFactory.Lookup.{IsAllocated, IsFirst, get_local_node_data-IsFirst}

abbrev pub among : Str → List Str → Bool
among name [] = false
among name (optarg ∷ next) = str_eq optarg name || among name next

-- RUNNING_DS, STARTUP_DS, CANDIDATE_DS, OPERATIONAL_DS
pub data ShowSource : Type 0 where
  running_ds startup_ds candidate_ds operational_ds : ShowSource

module _ (env : Env) (lysc_path log_path : List Info → Str) where
  open env use {World}

  -- `cli_error(...)` or `cli_print(...)`, and the code.
  abbrev pub refuse : Line → CliCode → M World CliCode
  refuse line code = do print env line; pure code

  abbrev pub deleted : LyErr → M World CliCode
  deleted success = pure cli_ok
  deleted _ = refuse deletion_failed cli_error

  abbrev pub push_mode : ℕ → Str → M World CliCode
  push_mode mode cmd = do
    modify (λ s. record s { world = env.cli_push_configmode s.world mode cmd })
    pure cli_ok

  -- A root node is entered.
  abbrev pub entered : Info → List Info → Str → LyErr → M World CliCode
  entered y_node [] cmd success = push_mode (y_get_next_mode log_path (y_node ∷ [])) cmd
  entered y_node (parent ∷ up) cmd success = pure cli_ok
  entered y_node up cmd _ = refuse creation_failed cli_error

  abbrev pub container_edit : Info → List Info → Str → Bool → M World CliCode
  container_edit y_node up cmd true = do
    ret ← delete_data_node env lysc_path y_node up none
    deleted ret
  container_edit y_node up cmd false = do
    ret ← add_data_node env lysc_path y_node up none
    entered y_node up cmd ret

  abbrev pub container_args : Info → List Info → Str → List Str → List Str → M World CliCode
  container_args y_node up cmd optargs [] =
      container_edit y_node up cmd (among (codes "delete") optargs)
  container_args y_node up cmd optargs (arg ∷ []) =
      if str_eq arg (codes "?")
      then refuse carriage_return cli_ok
      else refuse unknown_arguments cli_error_arg
  container_args y_node up cmd optargs (arg ∷ next ∷ argv) = refuse unknown_arguments cli_error_arg

  abbrev pub not_a_root : List Str → M World CliCode
  not_a_root [] = refuse incomplete_command cli_error
  not_a_root (arg ∷ argv) = refuse invalid_command cli_error

  unfoldable pub cmd_yang_container : Info → List Info → Str → List Str → List Str → M World CliCode
  unfolding is_root_node y_get_next_mode str_eq
  cmd_yang_container y_node up cmd optargs argv =
      if is_root_node (y_node ∷ up) == 0
      then not_a_root argv
      else container_args y_node up cmd optargs argv

  -- The check of the arguments that most handlers begin with.
  abbrev pub without_args : List Str → M World CliCode → M World CliCode
  without_args [] rest = rest
  without_args (arg ∷ argv) rest =
      if str_eq arg (codes "?")
      then refuse carriage_return cli_ok
      else refuse unknown_arguments cli_error_arg

  unfoldable pub cmd_yang_no_container : Info → List Info → List Str → M World CliCode
  unfolding str_eq
  cmd_yang_no_container y_node up argv =
      without_args argv (do ret ← delete_data_node env lysc_path y_node up none; deleted ret)

  abbrev pub source_node : ShowSource → Str → M World (Option ℕ)
  source_node candidate_ds xpath = get_local_node_data env lysc_path xpath
  source_node running_ds xpath = get_sysrepo_running_node env lysc_path xpath
  source_node startup_ds xpath = get_sysrepo_startup_node env lysc_path xpath
  source_node operational_ds xpath = get_sysrepo_operational_node env lysc_path xpath

  -- `config_print`, or a message for NULL.
  abbrev pub print_or : Line → Option ℕ → M World CliCode
  print_or line none = refuse line cli_ok
  print_or line (some n) = refuse (xml_tree (some n)) cli_ok

  unfoldable pub core_cmd_yang_show_config : Info → List Info → ShowSource → M World CliCode
  core_cmd_yang_show_config y_node up datastore = do
    d_node ← source_node datastore (lysc_path (y_node ∷ up))
    print_or no_data d_node

  -- `cmd_yang_show_candidate_config_container`, and those for the running and the startup datastore.
  unfoldable pub cmd_yang_show_config_container :
      ShowSource → Info → List Info → List Str → M World CliCode
  unfolding core_cmd_yang_show_config str_eq
  cmd_yang_show_config_container datastore y_node up argv =
      without_args argv (core_cmd_yang_show_config y_node up datastore)

  unfoldable pub cmd_yang_show_operational_container : Info → List Info → List Str → M World CliCode
  unfolding core_cmd_yang_show_config
  cmd_yang_show_operational_container y_node up [] =
      core_cmd_yang_show_config y_node up operational_ds
  cmd_yang_show_operational_container y_node up (arg ∷ argv) =
      refuse unknown_arguments cli_error_arg

  -- `lyd_diff_tree` from the running datastore to the candidate.
  abbrev pub diff_with : Str → Option ℕ → M World CliCode
  diff_with xpath none = refuse no_diff cli_ok
  diff_with xpath (some n) = do
    running ← get_sysrepo_running_node env lysc_path xpath
    diff ← call env (λ w. env.lyd_diff_tree w running (some n))
    print_or no_diff diff

  unfoldable pub cmd_yang_show_candidate_config_diff_container :
      Info → List Info → List Str → M World CliCode
  cmd_yang_show_candidate_config_diff_container y_node up [] = do
    candidate ← get_local_node_data env lysc_path (lysc_path (y_node ∷ up))
    diff_with (lysc_path (y_node ∷ up)) candidate
  cmd_yang_show_candidate_config_diff_container y_node up (arg ∷ argv) =
      refuse unknown_arguments cli_error_arg

  abbrev pub shown_line : Option ℕ → Line
  shown_line none = no_data
  shown_line (some n) = xml_tree (some n)

  print_or-shown_line :
      (o : Option ℕ) (s : State World)
      → print_or no_data o s ≡ some (cli_ok, record s { output = s.output ++ shown_line o ∷ [] })
  print_or-shown_line none s = refl
  print_or-shown_line (some n) s = refl

  -- For a candidate of allocated trees, `show config-candidate` for a container, given no arguments,
  -- returns CLI_OK and prints what the first tree that has a match at the path of the container has
  -- there, or that no data is found if no tree has one. Nothing but the output changes.
  pub cmd_yang_show_config_container-IsFirst :
      (y_node : Info) (up : List Info) (s : State World)
      → All (IsAllocated env lysc_path s.world) s.config_root_tree
      → (o : Option ℕ) × (cmd_yang_show_config_container candidate_ds y_node up [] s
          ≡ some (cli_ok, record s { output = s.output ++ shown_line o ∷ [] }))
        × IsFirst env lysc_path s.world (lysc_path (y_node ∷ up)) s.config_root_tree o
  unfolding cmd_yang_show_config_container
  cmd_yang_show_config_container-IsFirst y_node up s all =
      let (o, run, first) =
        get_local_node_data-IsFirst env lysc_path (lysc_path (y_node ∷ up)) s all in
      (o, rw (run, ◌>>=◌) (print_or-shown_line o s), first)
