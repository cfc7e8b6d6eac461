-- ===== src/Register/Container.antt =====
-- src/commands/yang_core/cmd_container.c: the registration of the commands of containers.
pub mod Root
use onm_cli.Base.{
  ℕ, Bool, true, false, ◌||◌, ◌&&◌, Option, none, some, List, [], ◌∷◌, ◌++◌, Str, codes, str_eq,
  if◌then◌else◌,
}
use onm_cli.Schema.{Info, Nodes}
use onm_cli.YUtils.Search.Parents.{
  show_config_candidate_parent, show_config_running_parent, show_config_startup_parent,
}
use onm_cli.YUtils.Search.{Command, y_node_name}
use onm_cli.YUtils.RelativePath.{is_list}
use onm_cli.YUtils.Oper.{has_oper_children}
use onm_cli.Register.{
  Handler, yang_container, yang_no_container, yang_show_candidate_config_container,
  yang_show_running_config_container, yang_show_startup_config_container,
  yang_show_candidate_config_diff_container, yang_show_operational_container, privileged, mode_any,
  CtxData, Libcli, R, pure, ◌>>=◌, ◌>>◌, gets, sprintf, cli_register_command, find_parent,
}
use onm_cli.Register.Place.{help_text, show_text, addr_of, Place, place_of}

unfoldable pub has_list_in_parents : List Info → Bool
has_list_in_parents [] = false
has_list_in_parents (curr_node ∷ up) = is_list curr_node.nodetype || has_list_in_parents up

-- `y_node->parent != NULL && !strcmp(y_node->parent->name, cmd_str)`
abbrev pub is_named_as_parent : List Info → Str → Bool
is_named_as_parent [] cmd_str = false
is_named_as_parent (parent ∷ up) cmd_str = str_eq parent.name cmd_str

abbrev pub is_top : List Info → Bool
is_top [] = true
is_top (_ ∷ _) = false

-- The three commands that the `show` commands of a node stand under.
pub record ShowParents : Type 0 where
  pub cand : Option ℕ
  pub running : Option ℕ
  pub start : Option ℕ

abbrev pub or_root : Option Command → Option Command → Option Command → CtxData → ShowParents
or_root none running start ctx = record {
  cand = ctx.show_conf_cand_cmd;
  running = ctx.show_conf_running_cmd;
  start = ctx.show_conf_startup_cmd;
}
or_root (some c) running start ctx = record {
  cand = some c.addr;
  running = addr_of running;
  start = addr_of start;
}

module _ {W : Type 0} (lib : Libcli W) (owner_module log_path : List Info → Str) where
  abbrev pub show_command :
      Info → List Info → Option ℕ → Str → Handler → Option Str → Str → R W (Option ℕ)
  show_command y_node up parent name handler hash help = cli_register_command lib (record {
    parent = parent;
    model = some y_node.addr;
    command = name;
    callback = some handler;
    privilege = privileged;
    mode = mode_any;
    command_hash = hash;
    help = help;
  })

  abbrev pub show_oper : Info → List Info → Nodes → Str → R W (Unit {0})
  show_oper y_node up children cmd_str =
      if has_oper_children y_node children && is_top up
      then (do
        help ← sprintf 1024 (
            codes "show operational data for "
            ++ cmd_str
            ++ codes " ("
            ++ y_node.module_name
            ++ codes ") [contain]")
        parent ← gets (λ s. s.ctx.show_operational_data)
        c ←
            show_command y_node up parent cmd_str yang_show_operational_container
              (some (owner_module (y_node ∷ up))) help
        pure tt)
      else pure tt

  abbrev pub show_config : Info → List Info → Str → Str → R W (Unit {0})
  show_config y_node up cmd_str help = if has_list_in_parents up then pure tt else (do
    cand ← find_parent lib owner_module show_config_candidate_parent up
    running ← find_parent lib owner_module show_config_running_parent up
    start ← find_parent lib owner_module show_config_startup_parent up
    parents ← gets (λ s. or_root cand running start s.ctx)
    let hash = some (owner_module (y_node ∷ up))
    cand_c ←
        show_command y_node up parents.cand cmd_str yang_show_candidate_config_container hash help
    run_c ←
        show_command y_node up parents.running cmd_str yang_show_running_config_container hash help
    start_c ←
        show_command y_node up parents.start cmd_str yang_show_startup_config_container hash help
    diff_c ←
        show_command y_node up cand_c (codes "diff") yang_show_candidate_config_diff_container
          (some (codes "diff")) (codes "show config diff")
    pure tt)

  abbrev pub config_commands : Info → List Info → Place → Str → Str → Str → R W ℕ
  config_commands y_node up place cmd_str help no_help = do
    c ← cli_register_command lib (record {
      parent = place.parent_cmd;
      model = some y_node.addr;
      command = cmd_str;
      callback = some yang_container;
      privilege = privileged;
      mode = place.mode;
      command_hash = some (owner_module (y_node ∷ up));
      help = help;
    })
    no_c ← cli_register_command lib (record {
      parent = place.parent_cmd_no;
      model = some y_node.addr;
      command = cmd_str;
      callback = some yang_no_container;
      privilege = privileged;
      mode = place.mode;
      command_hash = some (owner_module (y_node ∷ up));
      help = no_help;
    })
    pure 0

  -- Behind the `show` command of operational data. Where the parents and the mode are read, before
  -- the `show` commands or behind them, makes no difference to the calls that are made.
  abbrev pub container_commands : Info → List Info → Str → R W ℕ
  container_commands y_node up cmd_str = do
    help ← sprintf 1024 (help_text (codes "configure") cmd_str y_node.module_name (codes "contain"))
    no_help ← sprintf 1024 (help_text (codes "delete") cmd_str y_node.module_name (codes "contain"))
    show_help ← sprintf 1024 (show_text cmd_str y_node.module_name)
    (if is_named_as_parent up cmd_str then pure 1 else (do
      place ← place_of lib owner_module log_path y_node up
      show_config y_node up cmd_str show_help
      config_commands y_node up place cmd_str help no_help))

  unfoldable pub register_cmd_container : Info → List Info → Nodes → R W ℕ
  unfolding place_of cli_register_command has_oper_children has_list_in_parents find_parent
      y_node_name str_eq
  register_cmd_container y_node up children = do
    cmd_str ← sprintf 100 (y_node_name y_node up)
    show_oper y_node up children cmd_str
    (if y_node.config_r then pure 0 else container_commands y_node up cmd_str)
