-- ===== src/Register/Lists.antt =====
-- src/commands/yang_core/cmd_list.c: the registration of the commands of lists. `current_print_order_c`
-- is the `print-order` command that was registered last.
pub mod Dangling
use onm_cli.Base.{
  ℕ, Bool, true, false, Option, none, some, List, [], ◌∷◌, ◌++◌, Str, codes, ◌==◌, if◌then◌else◌,
}
use onm_cli.Schema.{Info, Nodes, end, node}
use onm_cli.YUtils.Search.Parents.{
  show_config_candidate_parent, show_config_running_parent, show_config_startup_parent,
  show_operational,
}
use onm_cli.YUtils.Search.{Command}
use onm_cli.YUtils.RelativePath.{is_list}
use onm_cli.YUtils.Oper.{has_oper_children}
use onm_cli.Register.{
  Handler, yang_list, yang_no_list, yang_show_candidate_config_list, yang_show_running_config_list,
  yang_show_startup_config_list, yang_show_operational_list, print_list_order, privileged, mode_any,
  optional_flag, optional_argument, argument, Completion, compl_candidate, compl_running,
  compl_startup, Libcli, R, pure, ◌>>=◌, ◌>>◌, gets, sprintf, cli_register_command,
  cli_register_optarg, set_opt_model, register_model_optarg, find_parent, Optarg,
}
use onm_cli.Register.Place.{help_text, show_text, described, leaf_help, place_of}
use onm_cli.Register.Container.{show_command}

module _ {W : Type 0} (lib : Libcli W) (owner_module log_path : List Info → Str) where
  abbrev pub handler_if : Bool → Option Handler
  handler_if true = some print_list_order
  handler_if false = none

  -- The `print-order` command of a mode: that of the last one, or a new one.
  abbrev pub new_order : ℕ → Str → R W (Option ℕ)
  new_order mode hash = do
    c ← cli_register_command lib (record {
      parent = none;
      model = none;
      command = codes "print-order";
      callback = none;
      privilege = privileged;
      mode = mode;
      command_hash = some hash;
      help = codes "print ordered entries of the list";
    })
    (λ s. some (c, record s { current_print_order_c = c }))

  abbrev pub order_from : Option ℕ → ℕ → Str → R W (Option ℕ)
  order_from none mode hash = new_order mode hash
  order_from (some c) mode hash = λ s.
      if lib.live s.cli c
      then (if lib.mode_of s.cli c == mode then pure (some c) else new_order mode hash) s
      else none

  abbrev pub below : Option ℕ → Option ℕ → Option ℕ
  below none order = order
  below (some c) order = some c

  -- `*c` behind the call; the list holds a node and its ancestors.
  unfoldable pub register_print_order : List Info → ℕ → Str → Option ℕ → R W (Option ℕ)
  unfolding cli_register_command
  register_print_order [] mode hash c = pure c
  register_print_order (y_node ∷ []) mode hash c = do
    current ← gets (λ s. s.current_print_order_c)
    order ← order_from current mode hash
    cli_register_command lib (record {
      parent = below c order;
      model = some y_node.addr;
      command = y_node.name;
      callback = handler_if y_node.user_ordered;
      privilege = privileged;
      mode = mode;
      command_hash = some hash;
      help = codes "show ordered list for node";
    })
  register_print_order (y_node ∷ parent ∷ up) mode hash c = do
    above ←
        (if is_list parent.nodetype then pure c else register_print_order (parent ∷ up) mode hash c)
    current ← gets (λ s. s.current_print_order_c)
    order ← order_from current mode hash
    cli_register_command lib (record {
      parent = below above order;
      model = some y_node.addr;
      command = y_node.name;
      callback = handler_if y_node.user_ordered;
      privilege = privileged;
      mode = mode;
      command_hash = some hash;
      help = codes "show ordered list for node";
    })

  abbrev pub key_argument : Info → ℕ → Option Str → Completion → Optarg
  key_argument child mode help completion = record {
    name = child.name;
    flags = argument;
    privilege = privileged;
    mode = mode;
    help = help;
    completion = some completion;
    validated = true;
  }

  abbrev pub key_optarg : Option ℕ → Info → ℕ → Option Str → Completion → R W (Unit {0})
  key_optarg c child mode help completion =
      register_model_optarg lib c (key_argument child mode help completion) child.addr

  unfoldable pub oper_keys : Option ℕ → Nodes → R W (Unit {0})
  unfolding register_model_optarg
  oper_keys c end = pure tt
  oper_keys c (node child children next) = do
    (if child.is_key
        then key_optarg c child mode_any (some (described child.dsc child.name)) compl_running
        else pure tt)
    oper_keys c next

  abbrev pub show_oper_list : Info → List Info → Nodes → R W (Unit {0})
  show_oper_list y_node up children =
      if has_oper_children y_node children
      then (do
        help ← sprintf 100 (
            codes "show operational data for "
            ++ y_node.name
            ++ codes " ("
            ++ y_node.module_name
            ++ codes ") [list]")
        parent ← find_parent lib owner_module show_operational up
        elim parent [
          | none ↦ pure tt
          | some p ↦ do
            c ←
                show_command lib owner_module log_path y_node up (some p.addr) y_node.name
                  yang_show_operational_list (some (owner_module (y_node ∷ up))) help
            oper_keys c children
        ])
      else pure tt

  -- A `show` command below its parent. Without a parent there is none, and none of its arguments.
  abbrev pub show_list : Info → List Info → Option Command → Handler → Str → R W (Option (Option ℕ))
  show_list y_node up none handler help = pure none
  show_list y_node up (some p) handler help = do
    c ←
        show_command lib owner_module log_path y_node up (some p.addr) y_node.name handler
          (some (owner_module (y_node ∷ up))) help
    pure (some c)

  abbrev pub show_key : Option (Option ℕ) → Info → Option Str → Completion → R W (Unit {0})
  show_key none child help completion = pure tt
  show_key (some c) child help completion = key_optarg c child mode_any help completion

  -- The commands that take the keys for arguments.
  pub record KeyCommands : Type 0 where
    pub c : Option ℕ
    pub no_c : Option ℕ
    pub cand : Option (Option ℕ)
    pub running : Option (Option ℕ)
    pub start : Option (Option ℕ)

  module _ (malloc : ℕ → Bool) where
    abbrev pub key_arguments : KeyCommands → ℕ → Info → R W (Unit {0})
    key_arguments k mode child = do
      help ← leaf_help malloc child child.ytype
      o ← cli_register_optarg lib k.c (key_argument child mode help compl_candidate)
      no_o ← cli_register_optarg lib k.no_c (key_argument child mode help compl_candidate)
      set_opt_model lib o child.addr
      set_opt_model lib no_o child.addr
      show_key k.cand child help compl_candidate
      show_key k.start child help compl_startup
      show_key k.running child help compl_running

    unfoldable pub register_keys : KeyCommands → ℕ → Nodes → R W (Unit {0})
    unfolding register_model_optarg cli_register_optarg set_opt_model
    register_keys k mode end = pure tt
    register_keys k mode (node child children next) = do
      (if child.is_key then key_arguments k mode child else pure tt)
      register_keys k mode next

    abbrev pub diff_flag : Option (Option ℕ) → R W (Unit {0})
    diff_flag none = pure tt
    diff_flag (some c) = do
      o ← cli_register_optarg lib c (record {
        name = codes "diff";
        flags = optional_flag;
        privilege = privileged;
        mode = mode_any;
        help = some (codes "show difference");
        completion = none;
        validated = true;
      })
      pure tt

    abbrev pub ordered : List Info → ℕ → Option ℕ → Bool → R W (Unit {0})
    ordered path mode c false = pure tt
    ordered path mode c true = do
      o ← cli_register_optarg lib c (record {
        name = codes "index";
        flags = optional_argument;
        privilege = privileged;
        mode = mode;
        help = some (codes "to delete the list entry");
        completion = none;
        validated = false;
      })
      last ← register_print_order path mode (owner_module path) none
      pure tt

    abbrev pub list_command : Info → List Info → Option ℕ → ℕ → Handler → Str → R W (Option ℕ)
    list_command y_node up parent mode handler help = cli_register_command lib (record {
      parent = parent;
      model = some y_node.addr;
      command = y_node.name;
      callback = some handler;
      privilege = privileged;
      mode = mode;
      command_hash = some (owner_module (y_node ∷ up));
      help = help;
    })

    abbrev pub list_commands : Info → List Info → Nodes → R W ℕ
    list_commands y_node up children = do
      help ←
          sprintf 100 (help_text (codes "configure") y_node.name y_node.module_name (codes "list"))
      no_help ←
          sprintf 100 (help_text (codes "delete") y_node.name y_node.module_name (codes "list"))
      show_help ← sprintf 100 (show_text y_node.name y_node.module_name)
      place ← place_of lib owner_module log_path y_node up
      cand_p ← find_parent lib owner_module show_config_candidate_parent up
      run_p ← find_parent lib owner_module show_config_running_parent up
      start_p ← find_parent lib owner_module show_config_startup_parent up
      cand ← show_list y_node up cand_p yang_show_candidate_config_list show_help
      running ← show_list y_node up run_p yang_show_running_config_list show_help
      start ← show_list y_node up start_p yang_show_startup_config_list show_help
      c ← list_command y_node up place.parent_cmd place.mode yang_list help
      no_c ← list_command y_node up place.parent_cmd_no place.mode yang_no_list no_help
      register_keys (record { c = c; no_c = no_c; cand = cand; running = running; start = start })
          place.mode children
      diff_flag cand
      ordered (y_node ∷ up) place.mode c y_node.user_ordered
      pure 0

    unfoldable pub register_cmd_list : Info → List Info → Nodes → R W ℕ
    unfolding place_of cli_register_command cli_register_optarg register_model_optarg find_parent
        has_oper_children oper_keys register_keys register_print_order
    register_cmd_list y_node up children = do
      show_oper_list y_node up children
      (if y_node.config_r then pure 0 else list_commands y_node up children)
