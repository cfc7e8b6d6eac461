-- ===== src/Register/Container/Root/Fits.antt =====
-- cmd_container.c: the names and the texts of a root container fit their buffers.
use onm_cli.Base.{◌+◌, ◌≤◌, ◌≡◌, some, [], ◌++◌, arith, Str, codes, length, length-append, lt→ltb}
use onm_cli.Schema.{Info}
use onm_cli.YUtils.Search.{y_node_name}
use onm_cli.YUtils.CmdName.{cmd_name-fits}
use onm_cli.Register.{Registry, sprintf}
use onm_cli.Register.Leaf.Calls.{length-help_text}
use onm_cli.Register.Generator.Oper.Show.{oper_text, length-oper_text}
use onm_cli.Register.Place.{help_text, show_text}

length-show_text :
    (name module_name : Str)
    → length (show_text name module_name) ≡ length name + length module_name + 23
length-show_text name module_name = omega (
  arith,
  length-append (name ++ codes " configurations (" ++ module_name) (codes ")"),
  length-append (name ++ codes " configurations (") module_name,
  length-append name (codes " configurations ("),
)

pub short_name :
    (y_node : Info)
    → length y_node.name + length y_node.module_name ≤ 98
    → length (y_node_name y_node []) + length y_node.module_name ≤ 900
unfolding y_node_name
short_name y_node short = omega (arith, cmd_name-fits y_node.name y_node.module_name short)

module _ {W : Type 0} where
  pub text_fits :
      (name module_name verb : Str) (s : Registry W)
      → length name + length module_name ≤ 900
      → length verb ≤ 9
      → sprintf 1024 (help_text verb name module_name (codes "contain")) s
        ≡ some (help_text verb name module_name (codes "contain"), s)
  unfolding sprintf
  text_fits name module_name verb s short h = rw (
      lt→ltb (length (help_text verb name module_name (codes "contain"))) 1024
        (omega (arith, length-help_text verb name module_name (codes "contain"))))

  pub show_fits :
      (name module_name : Str) (s : Registry W)
      → length name + length module_name ≤ 900
      → sprintf 1024 (show_text name module_name) s ≡ some (show_text name module_name, s)
  unfolding sprintf
  show_fits name module_name s short = rw (
      lt→ltb (length (show_text name module_name)) 1024
        (omega (arith, length-show_text name module_name)))

  pub oper_fits :
      (name module_name : Str) (s : Registry W)
      → length name + length module_name ≤ 900
      → sprintf 1024 (oper_text name module_name (codes ") [contain]")) s
        ≡ some (oper_text name module_name (codes ") [contain]"), s)
  unfolding sprintf
  oper_fits name module_name s short = rw (
      lt→ltb (length (oper_text name module_name (codes ") [contain]"))) 1024
        (omega (arith, length-oper_text name module_name (codes ") [contain]"))))

  pub root_name :
      (y_node : Info) (s : Registry W)
      → length y_node.name + length y_node.module_name ≤ 98
      → sprintf 100 (y_node_name y_node []) s ≡ some (y_node_name y_node [], s)
  unfolding sprintf y_node_name
  root_name y_node s short = rw (
      lt→ltb (length (y_node_name y_node [])) 100
        (omega (arith, cmd_name-fits y_node.name y_node.module_name short)))
