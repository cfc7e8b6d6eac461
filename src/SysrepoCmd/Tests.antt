-- ===== src/SysrepoCmd/Tests.antt =====
-- The theorems on sysrepo_cmd.c over the small model of the libraries, and a libcli that keeps nothing.
use onm_cli.Base.{ℕ, ◌≡◌, refl, Bool, true, none, some, List, [], ◌∷◌, Str, codes}
use onm_cli.Cli.{cli_ok}
use onm_cli.Schema.{leaf, Info, Nodes, end, node}
use onm_cli.State.{State, commands_generated}
use onm_cli.YUtils.Search.{Commands}
use onm_cli.Sample.{World, sample, top}
use onm_cli.Sample.Start.{started}
use onm_cli.Register.{Libcli}
use onm_cli.SysrepoCmd.Modules.{Module, CliContext, cmd_sysrepo_load_module}
use onm_cli.SysrepoCmd.Modules.Laws.{cmd_sysrepo_load_module_balanced}

abbrev keeping_nothing : Libcli World
keeping_nothing = record {
  cli_register_command = λ w r. (some 7, w);
  cli_register_optarg = λ w c o. (some 8, w);
  set_opt_model = λ w o addr. w;
  cli_unregister_command = λ w name hash. w;
  commands = λ w. Commands.nil;
  children = λ w c. Commands.nil;
  live = λ w c. true;
  mode_of = λ w c. 0;
  optargs = λ w c. [];
}

-- A module with a leaf of state data, and one without nodes.
abbrev modules : World → List Module
modules w =
    record {
      name = codes "state";
      implemented = true;
      top = node (record top { nodetype = leaf; config_r = true }) end end;
    }
    ∷ record { name = codes "types"; implemented = true; top = end }
    ∷ []

abbrev unknown_commands : CliContext
unknown_commands = record {
  ctx = record {
    no_cmd = none;
    show_conf_cand_cmd = none;
    show_conf_running_cmd = none;
    show_conf_startup_cmd = none;
    show_operational_data = none;
  };
  print_order = none;
}

abbrev owner_module : List Info → Str
owner_module path = codes "state"

abbrev malloc : ℕ → Bool
malloc n = true

abbrev walk : Nodes → List (Info × List Info)
walk nodes = []

abbrev loaded : State World
loaded = record started {
  acquired = 1;
  released = 1;
  output = commands_generated (codes "state") ∷ [];
}

load_run :
    cmd_sysrepo_load_module sample modules keeping_nothing owner_module owner_module malloc walk
      unknown_commands [] started
    ≡ some ((cli_ok, unknown_commands), loaded)
unfolding cmd_sysrepo_load_module
load_run = refl

cmd_sysrepo_load_module_balanced_example : (loaded.acquired ≡ 1) × (loaded.released ≡ 1)
cmd_sysrepo_load_module_balanced_example =
    cmd_sysrepo_load_module_balanced sample modules keeping_nothing owner_module owner_module malloc
      walk unknown_commands [] started loaded (cli_ok, unknown_commands) load_run
