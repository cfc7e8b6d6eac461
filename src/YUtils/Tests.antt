-- ===== src/YUtils/Tests.antt =====
-- Runs of y_utils.c, and its theorems at concrete schemas.
use mathlib.Core.Option.{some-injective}
use onm_cli.Base.{
  ℕ, ◌+◌, ◌≤◌, ◌≡◌, ◌≢◌, refl, subst, ◌==◌, ◌⊎◌, inl, inr, Bool, true, false, Option, none, some,
  List, [], ◌∷◌, ◌++◌, if◌then◌else◌, arith, Str, All, codes, length, keep, str_eq,
}
use onm_cli.Cli.{CliCode, cli_ok}
use onm_cli.Schema.{NodeType, container, leaf, list, Info, Idents, nil, ident}
use onm_cli.YUtils.Identity.{
  bases_length, add_bases, calculate_identities_length, add_identities_recursive, written,
  creat_help_for_identity_type, bases_add_comphelp, offers,
}
use onm_cli.YUtils.Identity.Help.{
  base_slack, below_bases, option_lines, collect, creat_help-fits, creat_help-offers,
}
use onm_cli.YUtils.Predicate.{append_key, append_keys, create_list_predicate_from_optargs}
use onm_cli.YUtils.Predicate.Text.{create_list_predicate-clauses}
use onm_cli.YUtils.Predicate.Unique.{IsPlain, IsUnquoted, create_list_predicate_unique}
use onm_cli.YUtils.RelativePath.{root_parent, get_relative_path}
use onm_cli.YUtils.RelativePath.Laws.{IsPath, get_relative_path-path}
use onm_cli.YUtils.Search.{Command, Commands, cmd, is_command_of, y_node_name, search, search_cmds}
use onm_cli.YUtils.Search.Laws.{in_order, first, search-first}
use onm_cli.YUtils.Search.Parents.{
  config_parent, show_config_candidate_parent, search_attached, Context, find_parent_command_core,
  search_parent, IsAttachedTo, find_parent-show, find_parent-config,
}

apart : (a b : ℕ) → (a == b) ≡ false → a ≢ b
apart a b e = ground arith

filled_in : (c : ℕ) (s : Str) → c ∷ s ≢ []
filled_in c s e = ground arith

abbrev node : ℕ → Str → NodeType → Bool → Info
node addr name kind is_key = record {
  addr = addr;
  name = name;
  module_name = codes "ietf-interfaces";
  nodetype = kind;
  config_r = false;
  is_key = is_key;
  user_ordered = false;
  dsc = none;
  ytype = none;
}

abbrev interfaces : Info
interfaces = node 1 (codes "interfaces") container false

abbrev interface : Info
interface = node 2 (codes "interface") list false

abbrev name_leaf : Info
name_leaf = node 3 (codes "name") leaf true

abbrev mtu_leaf : Info
mtu_leaf = node 4 (codes "mtu") leaf false

-- One base with two identities below it.
abbrev bases : Idents
bases =
    ident (codes "m") (codes "base")
      (ident (codes "m") (codes "x") nil (ident (codes "n") (codes "y") nil nil)) nil

abbrev plenty : ℕ → Bool
plenty n = true

abbrev help_text : Str
help_text = (codes "kind\nAvailable options:\n" ++ codes " [+] m:x\n") ++ codes " [+] n:y\n"

help_run : creat_help_for_identity_type plenty (some (codes "kind")) bases ≡ written 52 help_text
unfolding creat_help_for_identity_type bases_length add_bases calculate_identities_length
    add_identities_recursive
help_run = refl

creat_help-fits_example :
    (length help_text + 1 + base_slack bases ≡ 52 + 2)
    × ((length help_text + 1 ≤ 52) ⊎ ((bases ≡ nil) × (length help_text + 1 ≡ 52 + 2)))
creat_help-fits_example = creat_help-fits plenty (codes "kind") bases 52 help_text help_run

-- A completion that counts its entries.
abbrev count_entry : ℕ → Str → CliCode × ℕ
count_entry n entry = (cli_ok, n + 1)

creat_help-offers_example :
    (help_text ≡ codes "kind\nAvailable options:\n" ++ option_lines (below_bases bases))
    × (bases_add_comphelp count_entry bases (some (codes "n")) 0
        ≡ collect count_entry
            (some (codes "n"))
            0
            (keep (offers (some (codes "n"))) (below_bases bases)))
creat_help-offers_example =
    creat_help-offers plenty (codes "kind") bases 52 help_text count_entry (some (codes "n")) 0
      help_run

abbrev eth0 : Str → Option Str
eth0 name = if str_eq name (codes "name") then some (codes "eth0") else none

create_list_predicate-clauses_example :
    create_list_predicate_from_optargs eth0 (name_leaf ∷ mtu_leaf ∷ [])
    ≡ some (record { size = 14; text = codes "[name='eth0']" })
unfolding str_eq
create_list_predicate-clauses_example =
    create_list_predicate-clauses eth0 (name_leaf ∷ mtu_leaf ∷ [])

eth0-run :
    create_list_predicate_from_optargs eth0 (name_leaf ∷ mtu_leaf ∷ [])
    ≡ some (record { size = 14; text = codes "[name='eth0']" })
unfolding create_list_predicate_from_optargs str_eq append_keys append_key
eth0-run = refl

-- A command that gives the argument to the other leaf, too.
abbrev eth0_twice : Str → Option Str
eth0_twice name = some (codes "eth0")

eth0_twice-run :
    create_list_predicate_from_optargs eth0_twice (name_leaf ∷ mtu_leaf ∷ [])
    ≡ some (record { size = 14; text = codes "[name='eth0']" })
unfolding create_list_predicate_from_optargs append_keys append_key
eth0_twice-run = refl

eth0-IsUnquoted : IsUnquoted (codes "eth0")
eth0-IsUnquoted =
    (apart 101 39 refl, (apart 116 39 refl, (apart 104 39 refl, (apart 48 39 refl, tt))))

is_eth0 : (value : Str) → some (codes "eth0") ≡ some value → IsUnquoted value
is_eth0 value e = subst IsUnquoted (some-injective _ _ e) eth0-IsUnquoted

eth0-IsPlain : IsPlain eth0 (name_leaf ∷ mtu_leaf ∷ [])
unfolding str_eq
eth0-IsPlain = (λ v e. is_eth0 v e, (λ v e. ground arith, tt))

eth0_twice-IsPlain : IsPlain eth0_twice (name_leaf ∷ mtu_leaf ∷ [])
eth0_twice-IsPlain = (λ v e. is_eth0 v e, (λ v e. is_eth0 v e, tt))

create_list_predicate_unique_example :
    All
      (λ (child : Info). child.is_key ≡ true → eth0 child.name ≡ eth0_twice child.name)
      (name_leaf ∷ mtu_leaf ∷ [])
create_list_predicate_unique_example =
    create_list_predicate_unique eth0 eth0_twice (name_leaf ∷ mtu_leaf ∷ []) _ _ eth0-IsPlain
      eth0_twice-IsPlain eth0-run eth0_twice-run refl

-- Paths of one letter a step.
abbrev step : List Info → Str
step [] = []
step (node ∷ up) = codes "/x"

abbrev path : List Info → Str
path [] = []
path (node ∷ up) = path up ++ step (node ∷ up)

path-IsPath : IsPath path step
path-IsPath = record { of_null = refl; of_node = λ node up. refl; slashed = slashed }
  where
    slashed : (nodes : List Info) → (step nodes ≡ []) ⊎ ((s : Str) × (step nodes ≡ b'/' ∷ s))
    slashed [] = inl refl
    slashed (node ∷ up) = inr (codes "x", refl)

get_relative_path-path_example :
    path (root_parent (interface ∷ interfaces ∷ []))
      ++ (b'/' ∷ get_relative_path path (mtu_leaf ∷ interface ∷ interfaces ∷ []))
    ≡ codes "/x/x/x"
get_relative_path-path_example =
    get_relative_path-path path step path-IsPath mtu_leaf (interface ∷ interfaces ∷ [])
      (filled_in b'/' (codes "x"))

abbrev interfaces_cmd : Command
interfaces_cmd = record {
  addr = 11;
  command = codes "interfaces-ietf";
  command_hash = some (codes "ietf-interfaces");
  cmd_model = some 1;
  mode = 1;
}

abbrev interface_cmd : Command
interface_cmd = record {
  addr = 12;
  command = codes "interface";
  command_hash = some (codes "ietf-interfaces");
  cmd_model = some 2;
  mode = 1;
}

abbrev registered : Commands
registered = cmd interfaces_cmd (cmd interface_cmd Commands.nil Commands.nil) Commands.nil

search-first_example :
    search (codes "ietf-interfaces") 2 (codes "interface") registered
    ≡ first
        (keep (is_command_of 2 (codes "interface")) (in_order (codes "ietf-interfaces") registered))
search-first_example = search-first (codes "ietf-interfaces") 2 (codes "interface") registered

search_run : search (codes "ietf-interfaces") 2 (codes "interface") registered ≡ some interface_cmd
unfolding search str_eq
search_run = refl

abbrev owner : List Info → Str
owner nodes = codes "ietf-interfaces"

abbrev context : Context
context = record {
  commands = registered;
  no_cmd = Commands.nil;
  show_conf_cand_cmd = registered;
  show_conf_running_cmd = Commands.nil;
  show_conf_startup_cmd = Commands.nil;
  show_operational_data = Commands.nil;
}

find_parent-show_example :
    find_parent_command_core owner context
      (interface ∷ interfaces ∷ [])
      show_config_candidate_parent
    ≡ search_parent owner context registered (interface ∷ interfaces ∷ [])
find_parent-show_example =
    find_parent-show owner context (interface ∷ interfaces ∷ []) show_config_candidate_parent refl

-- A container `interface` in the place of the list.
abbrev box : Info
box = record interface { nodetype = container }

attached_run :
    find_parent_command_core owner context (box ∷ interfaces ∷ []) config_parent
    ≡ some interface_cmd
unfolding find_parent_command_core search_attached search_parent search_cmds search y_node_name
    str_eq
attached_run = refl

find_parent-config_example :
    (p g : Info) × (up : List Info) × (box ∷ interfaces ∷ [] ≡ p ∷ g ∷ up)
    × IsAttachedTo owner context interface_cmd p g up
find_parent-config_example =
    find_parent-config owner context (box ∷ interfaces ∷ []) config_parent interface_cmd refl
      attached_run
