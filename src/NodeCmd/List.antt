-- ===== src/NodeCmd/List.antt =====
-- src/commands/yang_core/cmd_list.c: the handlers of lists. A command stands as its node, the ancestors
-- and the children of the node, and `optarg`, the values of the optional arguments. An `int` stands
-- as its 32-bit pattern.
use onm_cli.Base.{
  ℕ, ◌+◌, ◌%◌, ◌^◌, ◌<◌, ◌≡◌, Bool, true, false, not, ◌||◌, Option, none, some, List, [], ◌∷◌, ◌++◌,
  arith, Str, All, codes, str_eq, length, ltb, ◌==◌, is_some, if◌then◌else◌,
}
use onm_cli.Libc.{strtol, long_of}
use onm_cli.Libc.Decimal.{IsDigit, decimal, strtol-decimal}
use onm_cli.Cli.{CliCode, cli_ok, cli_error, cli_error_arg}
use onm_cli.Env.{Env, LyErr, success}
use onm_cli.Schema.{Info}
use onm_cli.State.{
  M, pure, fault, ◌>>=◌, ◌>>◌, carriage_return, delete_option, unknown_arguments, creation_failed,
  invalid_index, no_data, no_diff, diff_of_candidate_only, xml_tree,
}
use onm_cli.Sysrepo.{call}
use onm_cli.YUtils.Mode.{y_get_next_mode}
use onm_cli.YUtils.Predicate.{Buffer, create_list_predicate_from_optargs}
use onm_cli.DefaultCmd.{print}
use onm_cli.DataFactory.{get_local_node_data, get_sysrepo_running_node}
use onm_cli.DataFactory.ListEdit.{add_data_node_list, delete_data_node_list}
use onm_cli.NodeCmd.Container.{
  ShowSource, candidate_ds, refuse, deleted, push_mode, source_node, print_or,
}

-- `*idx_endptr` is the NUL or a line feed.
abbrev pub is_end : Str → Bool
is_end [] = true
is_end (c ∷ s) = c == 10

-- The index that an argument gives; `none` is the error.
abbrev pub checked : ℕ → Str → Option ℕ
checked index rest = if not (is_end rest) || index == 0 then none else some index

unfoldable pub parse_index : Option Str → Option ℕ
parse_index none = some 0
parse_index (some idx_char) = checked ((strtol idx_char).0 % 2 ^ 32) (strtol idx_char).1

unfoldable pub has_none_key_node : List Info → Bool
has_none_key_node [] = false
has_none_key_node (child ∷ next) =
    let further = has_none_key_node next in if not child.is_key then true else further

-- The prompt in `mode_str[100]`; `none` if it does not fit.
unfoldable pub mode_text : Str → Str → Option Str
mode_text name predicate =
    let text = (if ltb (length predicate) 15 then name else []) ++ predicate in
    if ltb (length text) 100 then some text else none

module _ (env : Env) (lysc_path log_path : List Info → Str) (optarg : Str → Option Str) where
  open env use {World}

  abbrev pub push_text : List Info → Option Str → M World CliCode
  push_text y_node none = fault
  push_text y_node (some text) =
      push_mode env lysc_path log_path (y_get_next_mode log_path y_node) text

  abbrev pub enter_entry : Info → List Info → Option Buffer → M World CliCode
  enter_entry y_node up none = fault
  enter_entry y_node up (some predicate) =
      push_text (y_node ∷ up) (mode_text y_node.name predicate.text)

  -- An entry that has nothing but keys is not entered.
  abbrev pub entry_added : Info → List Info → List Info → LyErr → M World CliCode
  entry_added y_node up children success =
      if has_none_key_node children
      then enter_entry y_node up (create_list_predicate_from_optargs optarg children)
      else pure cli_ok
  entry_added y_node up children _ = refuse env lysc_path log_path creation_failed cli_error

  abbrev pub add_at : Info → List Info → List Info → Option ℕ → M World CliCode
  add_at y_node up children none = refuse env lysc_path log_path invalid_index cli_error
  add_at y_node up children (some index) = do
    ret ←
        add_data_node_list env lysc_path optarg (y_node ∷ up) children index
          (has_none_key_node children)
    entry_added y_node up children ret

  -- One argument is `?` or unknown; more are not looked at.
  abbrev pub unless_one : List Str → M World CliCode → M World CliCode → M World CliCode
  unless_one (arg ∷ []) help rest =
      if str_eq arg (codes "?")
      then help
      else refuse env lysc_path log_path unknown_arguments cli_error_arg
  unless_one argv help rest = rest

  unfoldable pub cmd_yang_list : Info → List Info → List Info → List Str → M World CliCode
  unfolding parse_index has_none_key_node mode_text y_get_next_mode
      create_list_predicate_from_optargs str_eq
  cmd_yang_list y_node up children argv =
      unless_one argv (do print env carriage_return; print env delete_option; pure cli_ok)
        (add_at y_node up children (parse_index (optarg (codes "index"))))

  unfoldable pub cmd_yang_no_list : Info → List Info → List Info → List Str → M World CliCode
  unfolding str_eq
  cmd_yang_no_list y_node up children argv =
      unless_one argv (refuse env lysc_path log_path carriage_return cli_ok) (do
        ret ← delete_data_node_list env lysc_path optarg (y_node ∷ up) children
        deleted env lysc_path log_path ret)

  -- The difference is printed in its branch, and once more behind it.
  abbrev pub print_diff : Option ℕ → M World CliCode
  print_diff none = refuse env lysc_path log_path no_diff cli_ok
  print_diff (some d) = do
    print env (xml_tree (some d))
    print_or env lysc_path log_path no_data (some d)

  abbrev pub list_diff : Str → Option ℕ → M World CliCode
  list_diff xpath none = refuse env lysc_path log_path no_diff cli_ok
  list_diff xpath (some n) = do
    running ← get_sysrepo_running_node env lysc_path xpath
    diff ← call env (λ w. env.lyd_diff_tree w running (some n))
    print_diff diff

  abbrev pub show_diff : ShowSource → Str → M World CliCode
  show_diff candidate_ds xpath = do
    candidate ← get_local_node_data env lysc_path xpath
    list_diff xpath candidate
  show_diff _ xpath = refuse env lysc_path log_path diff_of_candidate_only cli_error

  abbrev pub show_entry : ShowSource → Bool → Str → M World CliCode
  show_entry datastore true xpath = show_diff datastore xpath
  show_entry datastore false xpath = do
    d_node ← source_node env lysc_path log_path datastore xpath
    print_or env lysc_path log_path no_data d_node

  -- `strcat` into `xpath[1028]`
  abbrev pub show_at : ShowSource → Bool → Str → Option Buffer → M World CliCode
  show_at datastore is_diff xpath none = fault
  show_at datastore is_diff xpath (some predicate) =
      if ltb (length xpath + length predicate.text) 1028
      then show_entry datastore is_diff (xpath ++ predicate.text)
      else fault

  unfoldable pub core_yand_show_config : Info → List Info → List Info → ShowSource → M World CliCode
  unfolding create_list_predicate_from_optargs
  core_yand_show_config y_node up children datastore =
      show_at datastore (is_some (optarg (codes "diff"))) (lysc_path (y_node ∷ up))
        (create_list_predicate_from_optargs optarg children)

  -- The handlers for the four sources.
  unfoldable pub cmd_yang_show_config_list :
      ShowSource → Info → List Info → List Info → List Str → M World CliCode
  unfolding core_yand_show_config
  cmd_yang_show_config_list datastore y_node up children [] =
      core_yand_show_config y_node up children datastore
  cmd_yang_show_config_list datastore y_node up children (arg ∷ argv) =
      refuse env lysc_path log_path unknown_arguments cli_error_arg

-- A text of digits that stands for a number from 1 below 2^31 gives that index, and a text of digits
-- that stands for 0 is refused.
pub parse_index-decimal :
    (s : Str)
    → All IsDigit s
    → decimal s < 2 ^ 31
    → parse_index (some s) ≡ (if decimal s == 0 then none else some (decimal s))
unfolding parse_index
parse_index-decimal s h small = rw (strtol-decimal s h) (checked_lem (decimal s) small)
  where
    checked_lem :
        (n : ℕ)
        → n < 2 ^ 31
        → checked (long_of false n % 2 ^ 32) [] ≡ (if n == 0 then none else some n)
    checked_lem n small = ground arith
