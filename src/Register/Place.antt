-- ===== src/Register/Place.antt =====
-- What the functions that register the commands of a node share: the commands that those of the node
-- stand under, their mode, and the texts of their help.
use onm_cli.Base.{ℕ, Bool, Option, none, some, List, ◌∷◌, ◌++◌, Str, codes}
use onm_cli.Schema.{Info, BaseType, identityref, LeafType, Idents}
use onm_cli.YUtils.Search.{Command}
use onm_cli.YUtils.Search.Parents.{config_parent, no_config_parent}
use onm_cli.YUtils.Mode.{y_get_curr_mode}
use onm_cli.YUtils.Identity.{
  HelpText, no_description, no_memory, written, creat_help_for_identity_type,
}
use onm_cli.Register.{Libcli, R, pure, fault, ◌>>=◌, gets, find_parent}

-- A `sprintf` of "%s %s (%s) [%s]"
abbrev pub help_text : Str → Str → Str → Str → Str
help_text verb name module_name kind =
    verb ++ b' ' ∷ name ++ codes " (" ++ module_name ++ codes ") [" ++ kind ++ codes "]"

-- "show %s configurations (%s)"
abbrev pub show_text : Str → Str → Str
show_text name module_name =
    codes "show " ++ name ++ codes " configurations (" ++ module_name ++ codes ")"

abbrev pub described : Option Str → Str → Str
described none name = codes "configure " ++ name
described (some dsc) name = dsc

-- The help of an optional argument. `malloc` may fail where an identityref's options are listed.
module _ {W : Type 0} (malloc : ℕ → Bool) where
  abbrev pub identity_help : HelpText → R W (Option Str)
  identity_help no_description = fault
  identity_help no_memory = pure none
  identity_help (written help_len help) = pure (some help)

  abbrev pub type_help : Info → BaseType → Idents → R W (Option Str)
  type_help y_node identityref bases =
      identity_help (creat_help_for_identity_type malloc y_node.dsc bases)
  type_help y_node _ bases = pure (some (described y_node.dsc y_node.name))

  unfoldable pub leaf_help : Info → Option LeafType → R W (Option Str)
  leaf_help y_node none = fault
  leaf_help y_node (some t) = type_help y_node t.basetype t.bases

-- The parents and the mode of the commands of a node.
pub record Place : Type 0 where
  pub parent_cmd : Option ℕ
  pub parent_cmd_no : Option ℕ
  pub mode : ℕ

abbrev pub addr_of : Option Command → Option ℕ
addr_of none = none
addr_of (some c) = some c.addr

abbrev pub or_no_cmd : Option Command → Option ℕ → Option ℕ
or_no_cmd none no_cmd = no_cmd
or_no_cmd (some c) no_cmd = some c.addr

abbrev pub mode_under : Option Command → ℕ → ℕ
mode_under none mode = mode
mode_under (some c) mode = c.mode

module _ {W : Type 0} (lib : Libcli W) (owner_module log_path : List Info → Str) where
  unfoldable pub place_of : Info → List Info → R W Place
  unfolding find_parent y_get_curr_mode
  place_of y_node up = do
    parent_cmd ← find_parent lib owner_module config_parent up
    parent_cmd_no ← find_parent lib owner_module no_config_parent up
    no_cmd ← gets (λ s. s.ctx.no_cmd)
    pure (record {
      parent_cmd = addr_of parent_cmd;
      parent_cmd_no = or_no_cmd parent_cmd_no no_cmd;
      mode = mode_under parent_cmd (y_get_curr_mode log_path y_node up);
    })
