-- ===== src/YUtils/Search/Parents.antt =====
-- y_utils.c: `find_parent_command_core`, for the five wrappers `find_parent_*`.
use onm_cli.Base.{
  ◌≡◌, refl, ◌⊎◌, inl, inr, Bool, true, false, Option, none, some, List, [], ◌∷◌, arith, Str,
  str_eq, str_eq→≡, Bool-cases, if◌then◌else◌,
}
use onm_cli.Schema.{NodeType, container, choice, case, Info}
use onm_cli.YUtils.Search.{Command, Commands, y_node_name, search_cmds}
use onm_cli.YUtils.Search.Laws.{search_sound}

-- FIND_PARENT_T
pub data FindParent : Type 0 where
  config_parent no_config_parent : FindParent
  show_config_candidate_parent show_config_running_parent show_config_startup_parent : FindParent
  show_operational : FindParent

-- `cli->commands`, and the children of the commands that `struct cli_ctx_data` holds.
pub record Context : Type 0 where
  pub commands : Commands
  pub no_cmd : Commands
  pub show_conf_cand_cmd : Commands
  pub show_conf_running_cmd : Commands
  pub show_conf_startup_cmd : Commands
  pub show_operational_data : Commands

abbrev pub attaches : NodeType → Bool
attaches container = true
attaches choice = true
attaches case = true
attaches _ = false

module _ (owner_module : List Info → Str) (ctx : Context) where
  -- `search_cmds` for a parent that is not NULL.
  unfoldable pub search_parent : Commands → List Info → Option Command
  unfolding search_cmds
  search_parent commands [] = none
  search_parent commands (parent ∷ up) = search_cmds owner_module commands parent up

  -- The cases of the switch that fall through into one another, from the last upwards. The
  -- argument is the parent.
  unfoldable pub show_oper_case : List Info → Option Command
  unfolding search_parent
  show_oper_case [] = none
  show_oper_case (parent ∷ up) = search_parent ctx.show_operational_data (parent ∷ up)

  unfoldable pub show_startup_case : List Info → Option Command
  unfolding show_oper_case
  show_startup_case [] = show_oper_case []
  show_startup_case (parent ∷ up) = search_parent ctx.show_conf_startup_cmd (parent ∷ up)

  unfoldable pub show_running_case : List Info → Option Command
  unfolding show_startup_case
  show_running_case [] = show_startup_case []
  show_running_case (parent ∷ up) = search_parent ctx.show_conf_running_cmd (parent ∷ up)

  unfoldable pub show_candidate_case : List Info → Option Command
  unfolding show_running_case
  show_candidate_case [] = show_running_case []
  show_candidate_case (parent ∷ up) = search_parent ctx.show_conf_cand_cmd (parent ∷ up)

  -- What stands behind the switch, for a parent and a grandparent.
  unfoldable pub search_attached : Commands → List Info → Option Command
  unfolding search_parent
  search_attached root_cmds [] = none
  search_attached root_cmds (parent ∷ []) = none
  search_attached root_cmds (parent ∷ grand ∷ up) =
      if attaches parent.nodetype
      then (if str_eq parent.name grand.name
          then search_parent root_cmds (grand ∷ up)
          else search_parent root_cmds (parent ∷ grand ∷ up))
      else none

  unfoldable pub find_parent_command_core : List Info → FindParent → Option Command
  unfolding search_attached show_candidate_case
  find_parent_command_core parent config_parent = search_attached ctx.commands parent
  find_parent_command_core parent no_config_parent = search_attached ctx.no_cmd parent
  find_parent_command_core parent show_config_candidate_parent = show_candidate_case parent
  find_parent_command_core parent show_config_running_parent = show_running_case parent
  find_parent_command_core parent show_config_startup_parent = show_startup_case parent
  find_parent_command_core parent show_operational = show_oper_case parent

  -- The commands that each kind of parent is looked for among.
  abbrev pub commands_for : FindParent → Commands
  commands_for config_parent = ctx.commands
  commands_for no_config_parent = ctx.no_cmd
  commands_for show_config_candidate_parent = ctx.show_conf_cand_cmd
  commands_for show_config_running_parent = ctx.show_conf_running_cmd
  commands_for show_config_startup_parent = ctx.show_conf_startup_cmd
  commands_for show_operational = ctx.show_operational_data

  abbrev pub is_show : FindParent → Bool
  is_show config_parent = false
  is_show no_config_parent = false
  is_show _ = true

  -- The cases of the switch that fall through do no harm: each of the four kinds of `show` command
  -- looks for the node's parent among its own commands, and gives NULL for a root node.
  pub find_parent-show :
      (parent : List Info) (kind : FindParent)
      → is_show kind ≡ true
      → find_parent_command_core parent kind ≡ search_parent (commands_for kind) parent
  unfolding find_parent_command_core
  find_parent-show [] config_parent h = cc
  find_parent-show [] kind h = ground arith
  find_parent-show (p ∷ up) config_parent h = cc
  find_parent-show (p ∷ up) kind h = ground arith

  -- The command is the one of a node: its model is the node and its name is the node's.
  abbrev pub IsCommandOf : Command → Info → List Info → Type 0
  IsCommandOf c node up = (c.cmd_model ≡ some node.addr) × (c.command ≡ y_node_name node up)

  search_parent-IsCommandOf :
      (commands : Commands) (node : Info) (up : List Info) (c : Command)
      → search_parent commands (node ∷ up) ≡ some c
      → IsCommandOf c node up
  unfolding search_parent
  search_parent-IsCommandOf commands node up c e =
      search_sound (owner_module (node ∷ up)) node.addr (y_node_name node up) commands c e

  -- What a command under which a configuration command is registered is the command of.
  abbrev pub IsAttachedTo : Command → Info → Info → List Info → Type 0
  IsAttachedTo c parent grand up =
      (attaches parent.nodetype ≡ true)
      × (IsCommandOf c parent (grand ∷ up) ⊎ ((parent.name ≡ grand.name) × IsCommandOf c grand up))

  search_attached-IsAttachedTo :
      (commands : Commands) (parent grand : Info) (up : List Info) (c : Command)
      → search_attached commands (parent ∷ grand ∷ up) ≡ some c
      → IsAttachedTo c parent grand up
  unfolding search_attached
  search_attached-IsAttachedTo commands parent grand up c e =
      elim (Bool-cases (attaches parent.nodetype)) [
        | inr no_attach ↦ absurd (cc (rw no_attach at e))
        | inl attach ↦ elim (Bool-cases (str_eq parent.name grand.name)) [
          | inl same ↦ (
            attach,
            inr (
              str_eq→≡ parent.name grand.name same,
              search_parent-IsCommandOf commands grand up c (rw (attach, same) at e),
            ),
          )
          | inr differ ↦ (
            attach,
            inl (
                search_parent-IsCommandOf commands parent (grand ∷ up) c
                  (rw (attach, differ) at e)),
          )
        ]
      ]

  search_attached-below :
      (commands : Commands) (parent : List Info) (c : Command)
      → search_attached commands parent ≡ some c
      → (p g : Info) × (up : List Info) × (parent ≡ p ∷ g ∷ up) × IsAttachedTo c p g up
  unfolding search_attached
  search_attached-below commands [] c e = cc
  search_attached-below commands (p ∷ []) c e = cc
  search_attached-below commands (p ∷ g ∷ up) c e =
      (p, g, up, refl, search_attached-IsAttachedTo commands p g up c e)

  -- A configuration command and its `no` form are registered under another command only below a
  -- container, a choice or a case that is not a root node, and then under the command of that
  -- node, or of the node above it where the two have one name. Every other node finds NULL.
  pub find_parent-config :
      (parent : List Info) (kind : FindParent) (c : Command)
      → is_show kind ≡ false
      → find_parent_command_core parent kind ≡ some c
      → (p g : Info) × (up : List Info) × (parent ≡ p ∷ g ∷ up) × IsAttachedTo c p g up
  unfolding find_parent_command_core
  find_parent-config parent config_parent c h e = search_attached-below ctx.commands parent c e
  find_parent-config parent no_config_parent c h e = search_attached-below ctx.no_cmd parent c e
  find_parent-config parent _ c h e = cc
