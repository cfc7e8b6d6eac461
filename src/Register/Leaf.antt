-- ===== src/Register/Leaf.antt =====
-- src/commands/yang_core/cmd_leaf.c: the registration of the commands of leaves and leaf-lists.
pub mod Calls
use onm_cli.Base.{ℕ, Bool, true, false, Option, none, some, List, ◌∷◌, Str, codes, if◌then◌else◌}
use onm_cli.Schema.{Info}
use onm_cli.Register.{
  Handler, yang_leaf, yang_no_leaf, yang_leaf_list, yang_no_leaf_list, privileged, argument,
  multiple_argument, compl_candidate, Libcli, R, pure, ◌>>=◌, ◌>>◌, sprintf, cli_register_command,
  cli_register_optarg, register_model_optarg,
}
use onm_cli.Register.Place.{help_text, described, leaf_help, Place, place_of}

module _ {W : Type 0} (lib : Libcli W) (owner_module log_path : List Info → Str)
    (malloc : ℕ → Bool) where
  -- A command of the node and its `no` form.
  abbrev pub register_both :
      Info → List Info → Place → Str → Str → Handler → Handler → R W (Option ℕ × Option ℕ)
  register_both y_node up place help no_help handler no_handler = do
    c ← cli_register_command lib (record {
      parent = place.parent_cmd;
      model = some y_node.addr;
      command = y_node.name;
      callback = some handler;
      privilege = privileged;
      mode = place.mode;
      command_hash = some (owner_module (y_node ∷ up));
      help = help;
    })
    no_c ← cli_register_command lib (record {
      parent = place.parent_cmd_no;
      model = some y_node.addr;
      command = y_node.name;
      callback = some no_handler;
      privilege = privileged;
      mode = place.mode;
      command_hash = some (owner_module (y_node ∷ up));
      help = no_help;
    })
    pure (c, no_c)

  abbrev pub register_values : Option ℕ → ℕ → Str → R W (Option ℕ)
  register_values c mode help = cli_register_optarg lib c (record {
    name = codes "value(s)";
    flags = multiple_argument;
    privilege = privileged;
    mode = mode;
    help = some help;
    completion = none;
    validated = false;
  })

  abbrev pub leaf_list_commands : Info → List Info → R W ℕ
  leaf_list_commands y_node up = do
    help ←
        sprintf 100
          (help_text (codes "configure") y_node.name y_node.module_name (codes "leaf-list"))
    no_help ←
        sprintf 100 (help_text (codes "delete") y_node.name y_node.module_name (codes "leaf-list"))
    place ← place_of lib owner_module log_path y_node up
    let optarg_help = described y_node.dsc y_node.name
    both ← register_both y_node up place help no_help yang_leaf_list yang_no_leaf_list
    o ← register_values both.0 place.mode optarg_help
    no_o ← register_values both.1 place.mode optarg_help
    pure 0

  unfoldable pub register_cmd_leaf_list : Info → List Info → R W ℕ
  unfolding sprintf place_of cli_register_command cli_register_optarg
  register_cmd_leaf_list y_node up =
      if y_node.config_r then pure 1 else leaf_list_commands y_node up

  -- `cli_add_comphelp_entry` adds nothing to a list that is NULL, as it is for each `enum`.
  abbrev pub leaf_commands : Info → List Info → R W ℕ
  leaf_commands y_node up = do
    help ← sprintf 100 (help_text (codes "configure") y_node.name y_node.module_name (codes "leaf"))
    no_help ← sprintf 100 (help_text (codes "delete") y_node.name y_node.module_name (codes "leaf"))
    place ← place_of lib owner_module log_path y_node up
    both ← register_both y_node up place help no_help yang_leaf yang_no_leaf
    optarg_help ← leaf_help malloc y_node y_node.ytype
    register_model_optarg lib both.0
        (record {
          name = codes "value";
          flags = argument;
          privilege = privileged;
          mode = place.mode;
          help = optarg_help;
          completion = some compl_candidate;
          validated = true;
        })
        y_node.addr
    pure 0

  unfoldable pub register_cmd_leaf : Info → List Info → R W ℕ
  unfolding sprintf place_of leaf_help cli_register_command register_model_optarg
  register_cmd_leaf y_node up = if y_node.config_r then pure 1 else leaf_commands y_node up
