-- ===== src/Register/Generator.antt =====
-- src/commands/yang_core/y_cmd_generator.c, and the registration of choices and cases of cmd_choice.c,
-- which call one another. LYSC_TREE_DFS_BEGIN visits a node, then what is below it, unless the visit
-- says to skip that.
pub mod Nested
pub mod Oper
use onm_cli.Base.{
  ℕ, Bool, true, false, ◌&&◌, Option, none, some, List, [], ◌∷◌, Str, codes, str_eq, ◌==◌,
  if◌then◌else◌,
}
use onm_cli.Schema.{NodeType, container, leaf, leaf_list, list, choice, Info, Nodes, end, node}
use onm_cli.YUtils.Search.{y_node_name}
use onm_cli.YUtils.Search.Parents.{config_parent, no_config_parent}
use onm_cli.YUtils.Mode.{y_get_curr_mode}
use onm_cli.Register.{
  Handler, yang_choice, yang_no_choice, yang_case, yang_no_case, unprivileged, privileged, argument,
  compl_candidate, mode_any, Libcli, R, pure, ◌>>=◌, ◌>>◌, gets, sprintf, cli_register_command,
  register_model_optarg, find_parent,
}
use onm_cli.Register.Place.{help_text, described, addr_of, or_no_cmd, mode_under}
use onm_cli.Register.Leaf.{register_cmd_leaf, register_cmd_leaf_list}
use onm_cli.Register.Container.{register_cmd_container}
use onm_cli.Register.Lists.{register_cmd_list}

-- `register_node_routine_signals`, those that are returned.
pub data Signal : Type 0 where
  skip_next unknown ok : Signal

-- A choice of the name of the container above it.
abbrev pub is_container : NodeType → Bool
is_container container = true
is_container _ = false

abbrev pub is_duplicate : Info → List Info → Bool
is_duplicate y_node [] = false
is_duplicate y_node (parent ∷ up) = is_container parent.nodetype && str_eq parent.name y_node.name

module _ {W : Type 0} (lib : Libcli W) (owner_module log_path : List Info → Str) where
  abbrev pub choice_command : Info → List Info → Option ℕ → ℕ → Handler → Str → R W (Option ℕ)
  choice_command y_node up parent mode handler help = cli_register_command lib (record {
    parent = parent;
    model = some y_node.addr;
    command = y_node.name;
    callback = some handler;
    privilege = unprivileged;
    mode = mode;
    command_hash = some (owner_module (y_node ∷ up));
    help = help;
  })

  -- The commands that those of the cases stand under.
  abbrev pub choice_commands :
      Info → List Info → Option ℕ → Option ℕ → ℕ → Str → Str → R W (Option ℕ × Option ℕ)
  choice_commands y_node up parent_cmd parent_no_cmd mode help no_help =
      if is_duplicate y_node up then pure (parent_cmd, parent_no_cmd) else (do
        c ← choice_command y_node up parent_cmd mode yang_choice help
        no_c ← choice_command y_node up parent_no_cmd mode yang_no_choice no_help
        pure (c, no_c))

  -- `cases` is the loop over the cases, for the commands and the mode of the choice.
  abbrev pub register_cmd_choice_core :
      Info → List Info → Option ℕ → Option ℕ → ℕ → (Option ℕ → Option ℕ → ℕ → R W ℕ) → R W ℕ
  register_cmd_choice_core y_node up parent_cmd parent_no_cmd mode cases = do
    help ←
        sprintf 100 (help_text (codes "configure") y_node.name y_node.module_name (codes "choice"))
    no_help ←
        sprintf 100 (help_text (codes "delete") y_node.name y_node.module_name (codes "choice"))
    let mode' = if mode == mode_any then y_get_curr_mode log_path y_node up else mode
    both ← choice_commands y_node up parent_cmd parent_no_cmd mode' help no_help
    cases both.0 both.1 mode'

  abbrev pub register_cmd_choice : Info → List Info → (Option ℕ → Option ℕ → ℕ → R W ℕ) → R W ℕ
  register_cmd_choice y_node up cases = if y_node.config_r then pure 0 else (do
    parent_cmd ← find_parent lib owner_module config_parent up
    parent_no_cmd ← find_parent lib owner_module no_config_parent up
    no_cmd ← gets (λ s. s.ctx.no_cmd)
    register_cmd_choice_core y_node up (addr_of parent_cmd) (or_no_cmd parent_no_cmd no_cmd)
        (mode_under parent_cmd mode_any) cases)

  abbrev pub case_commands : Info → List Info → Option ℕ → Option ℕ → ℕ → R W (Option ℕ × Option ℕ)
  case_commands y_case up choice_cmd choice_no_cmd mode = do
    help ← sprintf 100 (help_text (codes "configure") y_case.name y_case.module_name (codes "case"))
    no_help ← sprintf 100 (help_text (codes "delete") y_case.name y_case.module_name (codes "case"))
    case_cmd ← choice_command y_case up choice_cmd mode yang_case help
    case_no_cmd ← choice_command y_case up choice_no_cmd mode yang_no_case no_help
    pure (case_cmd, case_no_cmd)

  -- The leaf of a case is an argument of the case.
  abbrev pub case_leaf : Option ℕ → ℕ → Info → R W (Unit {0})
  case_leaf case_cmd mode case_child =
      register_model_optarg lib case_cmd
        (record {
          name = case_child.name;
          flags = argument;
          privilege = privileged;
          mode = mode;
          help = some (described case_child.dsc case_child.name);
          completion = some compl_candidate;
          validated = true;
        })
        case_child.addr

  module _ (malloc : ℕ → Bool) where
    -- `nested` registers the node if it is a choice.
    abbrev pub register_node_routine : NodeType → Info → List Info → Nodes → R W ℕ → R W Signal
    register_node_routine container schema up children nested = do
      ret ← register_cmd_container lib owner_module log_path schema up children
      pure ok
    register_node_routine leaf schema up children nested = do
      ret ← register_cmd_leaf lib owner_module log_path malloc schema up
      pure ok
    register_node_routine list schema up children nested = do
      ret ← register_cmd_list lib owner_module log_path malloc schema up children
      pure ok
    register_node_routine leaf_list schema up children nested = do
      ret ← register_cmd_leaf_list lib owner_module log_path malloc schema up
      pure ok
    register_node_routine choice schema up children nested = do ret ← nested; pure skip_next
    register_node_routine _ schema up children nested = pure unknown

    -- One step of the walk; `below` is the walk over the children.
    abbrev pub unless_skipped : Signal → R W (Unit {0}) → R W (Unit {0})
    unless_skipped skip_next below = pure tt
    unless_skipped _ below = below

    abbrev pub visit : Info → List Info → Nodes → R W ℕ → R W (Unit {0}) → R W (Unit {0})
    visit schema up children nested below = do
      signal ← register_node_routine schema.nodetype schema up children nested
      unless_skipped signal below

    -- A child of a case: `some` is the value that the function returns at once. `nested` registers
    -- the child as a choice, and `walk` is `register_commands_schema` for it.
    abbrev pub case_child : NodeType → Option ℕ → ℕ → Info → R W ℕ → R W (Unit {0}) → R W (Option ℕ)
    case_child choice case_cmd mode child nested walk = do r ← nested; pure (some r)
    case_child leaf case_cmd mode child nested walk = do case_leaf case_cmd mode child; pure none
    case_child _ case_cmd mode child nested walk = do walk; pure none

    abbrev pub or_go_on : Option ℕ → R W (Option ℕ) → R W (Option ℕ)
    or_go_on (some r) rest = pure (some r)
    or_go_on none rest = rest

    abbrev pub or_next : Option ℕ → R W ℕ → R W ℕ
    or_next (some r) rest = pure r
    or_next none rest = rest

    unfoldable mutual
      unfolding register_cmd_container register_cmd_leaf register_cmd_list register_cmd_leaf_list
          register_model_optarg y_get_curr_mode str_eq

      -- The walk over nodes linked by `next`, of one parent.
      pub register_nodes : List Info → Nodes → R W (Unit {0})
      register_nodes up end = pure tt
      register_nodes up (node schema children next) = do
        visit schema up children
            (register_cmd_choice schema up
              (λ c no_c mode. choice_cases (schema ∷ up) c no_c mode children))
            (register_nodes (schema ∷ up) children)
        register_nodes up next

      -- The loop over the cases of a choice.
      pub choice_cases : List Info → Option ℕ → Option ℕ → ℕ → Nodes → R W ℕ
      choice_cases up choice_cmd choice_no_cmd mode end = pure 0
      choice_cases up choice_cmd choice_no_cmd mode (node y_case children next) = do
        both ← case_commands y_case up choice_cmd choice_no_cmd mode
        r ← case_children (y_case ∷ up) both.0 both.1 mode children
        or_next r (choice_cases up choice_cmd choice_no_cmd mode next)

      -- The loop over the children of a case.
      pub case_children : List Info → Option ℕ → Option ℕ → ℕ → Nodes → R W (Option ℕ)
      case_children up case_cmd case_no_cmd mode end = pure none
      case_children up case_cmd case_no_cmd mode (node child children next) = do
        r ←
            case_child child.nodetype case_cmd mode child
              (register_cmd_choice_core child up case_cmd case_no_cmd mode
                (λ c no_c m. choice_cases (child ∷ up) c no_c m children))
              (visit child up children (pure 0) (register_nodes (child ∷ up) children))
        or_go_on r (case_children up case_cmd case_no_cmd mode next)

    -- The walk over the subtree of a node.
    unfoldable pub register_commands_schema : Info → List Info → Nodes → R W (Unit {0})
    unfolding register_nodes
    register_commands_schema schema up children =
        visit schema up children
          (register_cmd_choice schema up
            (λ c no_c mode. choice_cases (schema ∷ up) c no_c mode children))
          (register_nodes (schema ∷ up) children)

  -- `unregister_commands_schema` calls this for each node.
  unfoldable pub unregister_node_routine : Info → List Info → R W (Unit {0})
  unfolding y_node_name
  unregister_node_routine y_node up = if y_node.config_r then pure tt else (do
    cmd_str ← sprintf 100 (y_node_name y_node up)
    let cmd_hash = owner_module (y_node ∷ up)
    (if y_node.user_ordered
        then (λ s. some (
          tt,
          record s { cli = lib.cli_unregister_command s.cli (codes "print-order") cmd_hash },
        ))
        else pure tt)
    (λ s. some (tt, record s { cli = lib.cli_unregister_command s.cli cmd_str cmd_hash })))
